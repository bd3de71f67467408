-- ===== src/ShortIds/Tests.antt =====
-- Conversions of concrete ids (pkg/commons/functions.go).
use torq.Prelude.{ℕ, ◌≡◌, refl, some, [], arith}
use torq.Prelude.Text.{Text, bytes, same_text}
use torq.Runtime.{returns}
use torq.Constants.{sig_net, main_net, litecoin}
use torq.ShortIds.Text.{decimal, atoi, split, read_digits}
use torq.ShortIds.Convert.{
  get_network, get_chain, convert_lnd_short_channel_id, convert_short_channel_id_to_lnd,
  convert-roundtrip, parse_channel_point,
}

-- 800000x123x1
abbrev sample : ℕ
sample = 879609302228860929

written : convert_lnd_short_channel_id sample ≡ bytes "800000x123x1"
unfolding convert_lnd_short_channel_id decimal
written = refl

networks :
    (get_network (bytes "signet") ≡ sig_net)
    × (get_network (bytes "mainnet") ≡ main_net)
    × (get_chain (bytes "litecoin") ≡ litecoin)
unfolding get_network get_chain same_text
networks = (refl, refl, refl)

-- More than two parts are no channel point.
no_point : parse_channel_point (bytes "ab:1:2") ≡ ([], 0)
unfolding parse_channel_point split
no_point = refl

convert-roundtrip_example :
    convert_short_channel_id_to_lnd (convert_lnd_short_channel_id sample) ≡ returns (some sample)
convert-roundtrip_example = convert-roundtrip sample (omega arith)

abbrev height_only : Text
height_only = bytes "70"

height_read : atoi height_only ≡ some 70
unfolding atoi read_digits
height_read = refl
