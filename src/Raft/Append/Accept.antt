-- ===== src/Raft/Append/Accept.antt =====
-- The loop of `appendEntriesimpl` leaves the overlay of its entries.
use kvstorage.Base.{
  ℕ, suc, ◌-◌, ◌≤◌, ◌<◌, ◌≡◌, ap, subst, List, [], ◌∷◌, length, get_elem?, some, arith, Bool-cases,
  inl, inr, ok, bytes_eq-eq, sym, ◌∙◌, ltb,
}
use kvstorage.Raft.State.{Raft, LogEntry}
use kvstorage.Raft.Log.Numbered.{Numbered}
use kvstorage.Raft.Inv.{log_end, last_log_index-eq, slices_index-ok, entry_at-ok}
use kvstorage.Raft.Append.{merge_entry, append_entry, append_all}
use kvstorage.Raft.Append.Overlay.{
  overlay_at, CompatAt, overlay_at-cons, overlay_at-end, overlay_at-nil, overlay_at-meet,
  overlay_at-Numbered, CompatAt-step, CompatAt-get, length-overlay_at,
}

abbrev pub with_logs : Raft → List LogEntry → Raft
with_logs r logs = record r { logs = logs }

-- The place of the entry after index `p`.
abbrev pub place : Raft → ℕ → ℕ
place r p = p - r.last_snapshot_include_index

module _ (r : Raft) (p : ℕ) (e : LogEntry) (es : List LogEntry)
    (numbered : Numbered r.last_snapshot_include_index r.logs)
    (from : r.last_snapshot_include_index ≤ p) (to : p ≤ log_end r) (index : e.log_index ≡ suc p)
    (compat : CompatAt (place r p) r.logs (e ∷ es)) where
  merge_entry-overlay :
      p < log_end r → merge_entry r e ≡ ok (with_logs r (overlay_at (place r p) r.logs (e ∷ [])))
  unfolding merge_entry
  merge_entry-overlay h =
      let (l, found, got, _) = entry_at-ok r e.log_index numbered (omega arith) (omega arith) in
      let got' : get_elem? r.logs (place r p) ≡ some l =
        subst (λ k. get_elem? r.logs k ≡ some l) (omega arith) got in
      ground (
        arith,
        slices_index-ok r e.log_index numbered,
        found,
        overlay_at-meet (place r p) r.logs e got',
        CompatAt-get (place r p) r.logs e es compat got',
        bytes_eq-eq l.command e.command,
      )

  append_entry-overlay :
      append_entry r e ≡ ok (with_logs r (overlay_at (place r p) r.logs (e ∷ [])))
  unfolding append_entry
  append_entry-overlay = elim (Bool-cases (ltb p (log_end r))) [
    | inl inside ↦ ground (arith, last_log_index-eq r numbered, merge_entry-overlay (ground arith))
    | inr outside ↦
        ground (arith, last_log_index-eq r numbered, overlay_at-end (place r p) r.logs e)
  ]

pub append_all-overlay :
    (r : Raft) (p : ℕ) (es : List LogEntry)
    → Numbered r.last_snapshot_include_index r.logs
    → r.last_snapshot_include_index ≤ p
    → p ≤ log_end r
    → Numbered p es
    → CompatAt (place r p) r.logs es
    → append_all r es ≡ ok (with_logs r (overlay_at (place r p) r.logs es))
unfolding append_all
append_all-overlay r p [] n from to m c =
    ap (λ ls. ok (with_logs r ls)) (sym (overlay_at-nil (place r p) r.logs))
append_all-overlay r p (e ∷ es) n from to m c =
    let k = place r p in
    let short : k ≤ length r.logs = omega arith in
    let next : place r (suc p) ≡ suc k = omega arith in
    let rest =
      append_all-overlay (with_logs r (overlay_at k r.logs (e ∷ []))) (suc p) es
        (overlay_at-Numbered r.last_snapshot_include_index k r.logs (e ∷ []) short n
          (subst (λ x. Numbered x (e ∷ [])) (omega arith) (m.0, tt)))
        (omega arith) (omega (arith, length-overlay_at k r.logs (e ∷ []) short)) m.1
        (subst (λ x. CompatAt x (overlay_at k r.logs (e ∷ [])) es) (sym next)
          (CompatAt-step k r.logs e es c)) in
    rw (append_entry-overlay r p e es n from to m.0 c) (
      rest
      ∙ ap (λ x. ok (with_logs r (overlay_at x (overlay_at k r.logs (e ∷ [])) es))) next
      ∙ ap (λ ls. ok (with_logs r ls)) (overlay_at-cons k r.logs e es short))
