-- ===== src/SettingsCache.antt =====
-- The cache of the user's settings (pkg/commons/managedSettings.go).
use torq.Prelude.{◌≡◌, refl, Bool, true, false, List, [], ◌∷◌, String}
use torq.Runtime.{Outcome, returns, blocks, ◌>>=◌}

pub data OperationType : Type 0 where
  read_settings write_settings : OperationType

-- `ManagedSettings`, the message and the reply.
pub record Message : Type 0 where
  pub operation : OperationType
  pub default_language : String
  pub preferred_time_zone : String
  pub default_date_range : String
  pub week_starts_on : String
  pub out : Bool

-- The four variables of the loop.
pub record Cache : Type 0 where
  pub default_language : String
  pub preferred_time_zone : String
  pub default_date_range : String
  pub week_starts_on : String

pub data Reply : Type 0 where
  no_reply : Reply
  settings : Message → Reply

-- A send on a nil channel never ends.
abbrev pub reply : Bool → Cache → Reply → Outcome (Cache × Reply)
reply true c r = returns (c, r)
reply false c r = blocks

abbrev pub filled : Message → Cache → Message
filled m c = record m {
  default_language = c.default_language;
  preferred_time_zone = c.preferred_time_zone;
  default_date_range = c.default_date_range;
  week_starts_on = c.week_starts_on;
}

abbrev pub stored : Message → Cache
stored m = record {
  default_language = m.default_language;
  preferred_time_zone = m.preferred_time_zone;
  default_date_range = m.default_date_range;
  week_starts_on = m.week_starts_on;
}

abbrev pub dispatch : OperationType → Message → Cache → Outcome (Cache × Reply)
dispatch read_settings m c = reply m.out c (settings (filled m c))
dispatch write_settings m c = returns (stored m, no_reply)

unfoldable pub process : Message → Cache → Outcome (Cache × Reply)
process m c = dispatch m.operation m c

-- The loop over the messages that arrive, with what it replies.
unfoldable pub run : List Message → Cache → Outcome (Cache × List Reply)
run [] c = returns (c, [])
run (m ∷ l) c = process m c >>= λ r. run l r.0 >>= λ q. returns (q.0, r.1 ∷ q.1)

abbrev pub empty : Cache
empty = record {
  default_language = "";
  preferred_time_zone = "";
  default_date_range = "";
  week_starts_on = "";
}

-- The messages of `GetSettings` and `SetSettings`.
unfoldable pub get_settings : Message
get_settings = record {
  operation = read_settings;
  default_language = "";
  preferred_time_zone = "";
  default_date_range = "";
  week_starts_on = "";
  out = true;
}

unfoldable pub set_settings :
    (default_date_range default_language week_starts_on preferred_time_zone : String) → Message
set_settings default_date_range default_language week_starts_on preferred_time_zone = record {
  operation = write_settings;
  default_language = default_language;
  preferred_time_zone = preferred_time_zone;
  default_date_range = default_date_range;
  week_starts_on = week_starts_on;
  out = false;
}

-- What is set last is what is got.
settings_after_two :
    (a b d e a' b' d' e' : String) (c : Cache)
    → run (set_settings a b d e ∷ set_settings a' b' d' e' ∷ get_settings ∷ []) c
      ≡ returns (
        record {
          default_language = b';
          preferred_time_zone = e';
          default_date_range = a';
          week_starts_on = d';
        },
        no_reply
            ∷ no_reply
            ∷ settings (record get_settings {
              default_language = b';
              preferred_time_zone = e';
              default_date_range = a';
              week_starts_on = d';
            })
            ∷ [],
      )
unfolding run process get_settings set_settings
settings_after_two a b d e a' b' d' e' c = refl
