-- ===== src/Tests/Threading.antt =====
-- Threads (src/lenovmail/sync/threads.py) at concrete tables.
use lenovmail.Prelude.{◌+◌, ◌≡◌, refl, inl, ◌&&◌, some, map, arith, ◌==◌, if◌then◌else◌}
use lenovmail.Table.{select_where, delete_where, count_where, exists_where}
use lenovmail.Text.{text_eq, lstrip, strip, is_empty, text_elem, add_text}
use lenovmail.Threads.{
  mentions, is_hit, threads_referenced_by, set_thread, own_ref, stripped_set, candidate_refs,
  ref_rows, assign_thread,
}
use lenovmail.Threads.Groups.{add_group, group_from, group_by_thread, insert_group, sort_groups}
use lenovmail.Tests.Samples.{two_threads, joining, moving}
use lenovmail.Threads.Counters.{in_thread, CountsExact, assign_thread-CountsExact}
use lenovmail.Threads.LeftBehind.{assign_thread-left_behind}
use lenovmail.Threads.Merging.{joins, first_or, assign_thread-messages}
use lenovmail.Threads.Refs.{of_message, assign_thread-refs_idem}

assign_thread-messages_example :
    let (t, after) = assign_thread 20 joining two_threads in
    let matched = threads_referenced_by joining.account_id (candidate_refs joining) two_threads in
    (t ≡ first_or 20 matched)
    × (after.messages
        ≡ map
            (λ m. if joins joining matched m then set_thread (some t) m else m)
            two_threads.messages)
assign_thread-messages_example = assign_thread-messages 20 joining two_threads

assign_thread-CountsExact_example : CountsExact (assign_thread 20 joining two_threads).1
unfolding count_where
assign_thread-CountsExact_example =
    assign_thread-CountsExact 20 joining two_threads (refl, (refl, tt))
      (ground arith, (ground arith, tt)) (ground arith, (ground arith, (λ _. inl refl, tt)))

assign_thread-left_behind_example :
    let after = (assign_thread 20 moving two_threads).1 in
    (select_where (λ r. r.id == 11) after.threads
      ≡ select_where (λ r. r.id == 11) two_threads.threads)
    × (count_where (in_thread 11) after.messages
          + count_where (λ m. m.id == moving.message_row_id && in_thread 11 m) two_threads.messages
        ≡ count_where (in_thread 11) two_threads.messages)
unfolding candidate_refs stripped_set own_ref threads_referenced_by is_hit mentions group_by_thread
    group_from add_group sort_groups insert_group exists_where text_elem text_eq strip lstrip
    is_empty add_text
assign_thread-left_behind_example =
    assign_thread-left_behind 20 moving two_threads 11 refl (ground arith)

assign_thread-refs_idem_example :
    let after = (assign_thread 20 joining two_threads).1 in
    (select_where (of_message joining.message_row_id) after.refs ≡ ref_rows joining)
    × (delete_where (of_message joining.message_row_id) after.refs
        ≡ delete_where (of_message joining.message_row_id) two_threads.refs)
    × ((assign_thread 21 joining after).1.refs ≡ after.refs)
assign_thread-refs_idem_example = assign_thread-refs_idem 20 21 joining two_threads
