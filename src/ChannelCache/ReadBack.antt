-- ===== src/ChannelCache/ReadBack.antt =====
-- What the clients read after a channel is written (pkg/commons/managedChannel.go).
use torq.Prelude.{
  ℕ, ltb, ◌==◌, ◌<◌, if◌then◌else◌, ◌≡◌, ◌≢◌, refl, ap, ◌∙◌, Bool, true, false, ◌||◌, ◌&&◌, not,
  Option, some, [], ◌++◌, arith, nat_eq, All, ==_iff,
}
use torq.Prelude.Map.{Map, lookup, insert, lookup-insert}
use torq.Prelude.Text.{Text, bytes, same_text, same_text_iff, text_eq}
use torq.Words.{word, sign_bit}
use torq.Runtime.{returns, ◌>>=◌}
use torq.Constants.{cooperative_closed}
use torq.ShortIds.Text.{format_uint}
use torq.ShortIds.Convert.{
  block_height, tx_index, output_index, convert_lnd_short_channel_id,
  convert_short_channel_id_to_lnd, convert-roundtrip, create_channel_point, channel_point-roundtrip,
}
use torq.ChannelCache.Types.{Message, no_reply, Cache}
use torq.ChannelCache.Process.{
  number_or_zero, parse_and_convert_short_ids, put_channel, with_lnd, named_copy, converted_copy,
  write_whole_channel, dispatch, process,
}
use torq.ChannelCache.Clients.{
  set_channel, get_active_channel_id_by_funding_transaction, get_channel_id_by_lnd_short_channel_id,
  get_channel_id_by_channel_point, get_channel_status_by_channel_id,
}
use torq.ChannelCache.Names.{longer_not_empty}

-- A short id that LND has has two separators, so it is not empty.
short_id-not_empty : (id : ℕ) → same_text (convert_lnd_short_channel_id id) [] ≡ false
unfolding convert_lnd_short_channel_id
short_id-not_empty id =
    longer_not_empty (format_uint (block_height id))
      (format_uint (tx_index id) ++ (bytes "x" ++ format_uint (output_index id))) 120

own-entry : (s : Text) (id : ℕ) (m : Map Text ℕ) → lookup s (insert s id m) ≡ some id
own-entry s id m = ground (arith, lookup-insert s s id m, same_text_iff s s)

-- The conversion of the message's copy neither panics nor waits.
parse-returns :
    (m : Message) (id : ℕ)
    → id < word
    → m.short_channel_id ≡ convert_lnd_short_channel_id id
    → m.lnd_short_channel_id ≡ 0
    → (x : Message) × (parse_and_convert_short_ids m ≡ returns x)
unfolding parse_and_convert_short_ids
parse-returns m id lt short none_given =
    let not_empty : same_text m.short_channel_id [] ≡ false =
      ap (λ s. same_text s []) short ∙ short_id-not_empty id in
    let zero : (m.lnd_short_channel_id == 0) ≡ true =
      (==_iff m.lnd_short_channel_id 0).1 none_given in
    let unnamed : (same_text m.short_channel_id [] && not (m.lnd_short_channel_id == 0)) ≡ false =
      ground (arith, not_empty) in
    let converts : (m.lnd_short_channel_id == 0 && not (same_text m.short_channel_id [])) ≡ true =
      ground (arith, not_empty, zero) in
    let name = convert_lnd_short_channel_id m.lnd_short_channel_id in
    let same : named_copy m ≡ m =
      ap (λ b. if b then record m { short_channel_id = name } else m) unnamed in
    let back : convert_short_channel_id_to_lnd m.short_channel_id ≡ returns (some id) =
      ap convert_short_channel_id_to_lnd short ∙ convert-roundtrip id lt in
    (
      record m { lnd_short_channel_id = id },
      ap converted_copy same
          ∙ ap
              (λ b.
                if b
                then with_lnd m (convert_short_channel_id_to_lnd m.short_channel_id)
                else returns m)
              converts
          ∙ ap (with_lnd m) back,
    )

-- After `SetChannel` with the short id of LND's id, the channel is found by LND's id, by its
-- channel point and, where its status is not closed, among the active ones, and its status is the
-- one that was written. The write itself neither panics nor waits.
pub set_channel-read_back :
    (c : Cache) (id lnd status index capacity first second : ℕ) (hash : Text) (is_private : Bool)
    (initiating accepting : Option ℕ)
    → id ≢ 0
    → lnd ≢ 0
    → lnd < word
    → same_text hash [] ≡ false
    → All (λ x. x ≢ 58) hash
    → index < sign_bit
    → (after : Cache) × (process
          (set_channel id
            (some (convert_lnd_short_channel_id lnd))
            status
            hash
            index
            capacity
            is_private
            first
            second
            initiating
            accepting)
          c
        ≡ returns (after, no_reply))
      × (get_channel_id_by_lnd_short_channel_id lnd after ≡ returns id)
      × (get_channel_id_by_channel_point (create_channel_point hash index) after ≡ returns id)
      × (get_channel_status_by_channel_id id after ≡ returns status)
      × (status < cooperative_closed
          → get_active_channel_id_by_funding_transaction hash index after ≡ returns id)
unfolding process dispatch write_whole_channel set_channel get_channel_id_by_lnd_short_channel_id
    get_channel_id_by_channel_point get_channel_status_by_channel_id
    get_active_channel_id_by_funding_transaction
set_channel-read_back c id lnd status index capacity first second hash is_private initiating
      accepting nz lnz lt named no_colon small =
    let m =
      set_channel id (some (convert_lnd_short_channel_id lnd)) status hash index capacity is_private
        first second initiating accepting in
    let after = put_channel m c in
    let point = create_channel_point hash index in
    let short = convert_lnd_short_channel_id lnd in
    let x = parse-returns m lnd lt refl refl in
    let accepted : (id == 0 || same_text hash []) ≡ false = ground (arith, named) in
    let given : (lnd == 0) ≡ false = ground arith in
    let ids : after.all_short_channel_ids ≡ insert short id c.all_short_channel_ids =
      ap (λ b. if b then c.all_short_channel_ids else insert short id c.all_short_channel_ids)
        (short_id-not_empty lnd) in
    let by_short : lookup short after.all_short_channel_ids ≡ some id =
      ap (lookup short) ids ∙ own-entry short id c.all_short_channel_ids in
    let by_point : lookup point after.all_channel_points ≡ some id =
      own-entry point id c.all_channel_points in
    let parsed = channel_point-roundtrip hash index no_colon small in
    let status_read : lookup id after.statuses ≡ some status =
      ground (arith, lookup-insert id id status c.statuses) in
    let found = λ (o : Option ℕ). returns (number_or_zero o) in
    (
      after,
      ap
            (λ b.
              (if b
                then returns c
                else (parse_and_convert_short_ids m >>= λ discarded. returns after))
              >>= λ c'. returns (c', no_reply))
            accepted
          ∙ ap (λ o. (o >>= λ discarded. returns after) >>= λ c'. returns (c', no_reply)) x.1,
      ap (λ b. if b then returns 0 else found (lookup short after.all_short_channel_ids)) given
          ∙ ap found by_short,
      ap (λ p. found (lookup (create_channel_point p.0 p.1) after.all_channel_points)) parsed
          ∙ ap found by_point,
      ap found status_read,
      λ open_now.
          let is_open_now : ltb status cooperative_closed ≡ true = ground arith in
          let points : after.channel_points ≡ insert point id c.channel_points =
            ap (λ b. if b then insert point id c.channel_points else c.channel_points)
              is_open_now in
          ap (λ a. found (lookup point a)) points ∙ ap found (own-entry point id c.channel_points),
    )
