-- ===== src/ChannelCache/Consistent.antt =====
-- The maps of the channel cache agree (pkg/commons/managedChannel.go).
use torq.Prelude.{
  ◌==◌, ◌≡◌, refl, subst, inl, inr, Bool, true, false, Bool-cases, ◌||◌, List, [], ◌∷◌, nat_eq,
}
use torq.Prelude.Map.{lookup, insert}
use torq.Prelude.Text.{same_text, text_eq}
use torq.Runtime.{Outcome, returns, panics, blocks, ◌>>=◌}
use torq.ChannelCache.Types.{
  OperationType, read_active_channelid_by_shortchannelid, read_channelid_by_shortchannelid,
  read_active_channelid_by_funding_transaction, read_channelid_by_funding_transaction,
  read_channelids_by_node_id, read_statusid_by_channelid, read_channel_settings,
  read_all_channel_settings, write_channel, write_channelstatusid, Message, Reply, no_reply, Cache,
}
use torq.ChannelCache.Reads.{settings_or_zero}
use torq.ChannelCache.Process.{
  channel_point_of, reply, parse_and_convert_short_ids, settings_from, put_short_id, is_open,
  put_channel, write_whole_channel, delete_key_of, put_status, write_status, dispatch, process,
  empty, run,
}
use torq.ChannelCache.Names.{
  IsConsistent, channel_point-not_empty, insert-NamesIn, insert-second, delete-names,
  statuses-insert, choose-NamesIn, both-NamesIn, second-NamesIn, choose-none, insert-none,
  put_short-none,
}

put_channel-IsConsistent :
    (m : Message) (c : Cache) → IsConsistent c → IsConsistent (put_channel m c)
put_channel-IsConsistent m c h =
    let open_now = is_open m.status in
    let short = m.short_channel_id in
    let id = m.channel_id in
    let point = channel_point_of m in
    let empty_short = same_text short [] in
    (
      statuses-insert id (settings_from m) c.statuses c.settings h.0,
      choose-NamesIn open_now (put_short_id m c.short_channel_ids) c.short_channel_ids
          (put_short_id m c.all_short_channel_ids)
          (both-NamesIn empty_short short id c.short_channel_ids c.all_short_channel_ids h.1)
          (second-NamesIn empty_short short id c.short_channel_ids c.all_short_channel_ids h.1),
      choose-NamesIn open_now (insert point id c.channel_points) c.channel_points
          (insert point id c.all_channel_points)
          (insert-NamesIn point id c.channel_points c.all_channel_points h.2)
          (insert-second point id c.channel_points c.all_channel_points h.2),
      choose-none open_now (put_short_id m c.short_channel_ids) c.short_channel_ids
          (put_short-none m c.short_channel_ids h.3) h.3,
      choose-none open_now (insert point id c.channel_points) c.channel_points
          (insert-none point id c.channel_points (channel_point-not_empty m) h.4) h.4,
    )

put_status-IsConsistent : (m : Message) (c : Cache) → IsConsistent c → IsConsistent (put_status m c)
put_status-IsConsistent m c h =
    let open_now = is_open m.status in
    let id = m.channel_id in
    (
      statuses-insert id (record (settings_or_zero (lookup id c.settings)) { status = m.status })
          c.statuses c.settings h.0,
      choose-NamesIn open_now c.short_channel_ids (delete_key_of id c.short_channel_ids)
          c.all_short_channel_ids h.1
          (λ s missing. delete-names id c.short_channel_ids s (h.1 s missing)),
      choose-NamesIn open_now c.channel_points (delete_key_of id c.channel_points)
          c.all_channel_points h.2
          (λ s missing. delete-names id c.channel_points s (h.2 s missing)),
      choose-none open_now c.short_channel_ids (delete_key_of id c.short_channel_ids) h.3
          (delete-names id c.short_channel_ids [] h.3),
      choose-none open_now c.channel_points (delete_key_of id c.channel_points) h.4
          (delete-names id c.channel_points [] h.4),
    )

-- The state that a handler leaves, where it returns.
abbrev OnReturn : {A : Type 0} → Outcome (Cache × A) → Type 0
OnReturn (returns r) = IsConsistent r.0
OnReturn panics = Unit
OnReturn blocks = Unit

reply-OnReturn : (b : Bool) (c : Cache) (r : Reply) → IsConsistent c → OnReturn (reply b c r)
reply-OnReturn true c r h = h
reply-OnReturn false c r h = tt

write_whole-OnReturn :
    (m : Message) (c : Cache)
    → IsConsistent c
    → OnReturn {A = Reply} (write_whole_channel m c >>= λ c'. returns (c', no_reply))
unfolding write_whole_channel
write_whole-OnReturn m c h =
    elim (Bool-cases (m.channel_id == 0 || same_text m.funding_transaction_hash [])) [
      | inl refused ↦ rw refused h
      | inr good ↦ rw good (converted (parse_and_convert_short_ids m))
    ]
  where
    converted :
        (o : Outcome Message)
        → OnReturn {A = Reply}
            ((o >>= λ discarded. returns (put_channel m c)) >>= λ c'. returns (c', no_reply))
    converted (returns x) = put_channel-IsConsistent m c h
    converted panics = tt
    converted blocks = tt

write_status-IsConsistent :
    (m : Message) (c : Cache) → IsConsistent c → IsConsistent (write_status m c)
unfolding write_status
write_status-IsConsistent m c h = elim (Bool-cases (m.channel_id == 0)) [
  | inl refused ↦ rw refused h
  | inr good ↦ rw good (put_status-IsConsistent m c h)
]

dispatch-OnReturn :
    (t : OperationType) (m : Message) (c : Cache) → IsConsistent c → OnReturn (dispatch t m c)
unfolding dispatch
dispatch-OnReturn read_active_channelid_by_shortchannelid m c h = reply-OnReturn m.out c _ h
dispatch-OnReturn read_channelid_by_shortchannelid m c h = reply-OnReturn m.out c _ h
dispatch-OnReturn read_active_channelid_by_funding_transaction m c h = reply-OnReturn m.out c _ h
dispatch-OnReturn read_channelid_by_funding_transaction m c h = reply-OnReturn m.out c _ h
dispatch-OnReturn read_channelids_by_node_id m c h = reply-OnReturn m.channel_ids_out c _ h
dispatch-OnReturn read_statusid_by_channelid m c h = reply-OnReturn m.out c _ h
dispatch-OnReturn read_channel_settings m c h = reply-OnReturn m.channel_setting_out c _ h
dispatch-OnReturn read_all_channel_settings m c h = reply-OnReturn m.channel_settings_out c _ h
dispatch-OnReturn write_channel m c h = write_whole-OnReturn m c h
dispatch-OnReturn write_channelstatusid m c h = write_status-IsConsistent m c h

run-OnReturn : (l : List Message) (c : Cache) → IsConsistent c → OnReturn (run l c)
unfolding run process
run-OnReturn [] c h = h
run-OnReturn (m ∷ l) c h =
    first (dispatch m.operation m c) (dispatch-OnReturn m.operation m c h) (run-OnReturn l)
  where
    rest :
        (r : Reply) (o : Outcome (Cache × List Reply))
        → OnReturn o
        → OnReturn {A = List Reply} (o >>= λ q. returns (q.0, r ∷ q.1))
    rest r (returns q) g = g
    rest r panics g = tt
    rest r blocks g = tt

    first :
        (o : Outcome (Cache × Reply))
        → OnReturn o
        → ((c' : Cache) → IsConsistent c' → OnReturn (run l c'))
        → OnReturn {A = List Reply} (o >>= λ r. run l r.0 >>= λ q. returns (q.0, r.1 ∷ q.1))
    first (returns r) g later = rest r.1 (run l r.0) (later r.0 g)
    first panics g later = tt
    first blocks g later = tt

-- Whatever messages the cache has handled since it started: the status of a channel is the one in
-- its settings, every active short id and every active channel point is also among all of them,
-- and neither of these is empty.
pub run-IsConsistent :
    (l : List Message) (c : Cache) (replies : List Reply)
    → run l empty ≡ returns (c, replies)
    → IsConsistent c
unfolding lookup
run-IsConsistent l c replies h =
    subst (OnReturn) h
      (run-OnReturn l empty ((λ id. refl), (λ s g. refl), (λ s g. refl), refl, refl))
