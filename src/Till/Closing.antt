-- ===== src/Till/Closing.antt =====
-- What closing a session records, and what it leaves of the other sessions.
use hightower_pos.Prelude.{ℕ, ◌≤◌, ◌≡◌, refl, inl, inr, none, some, arith}
use hightower_pos.Prelude.Int.{ℤ, ◌-ℤ◌}
use hightower_pos.Prelude.Text.{Text}
use hightower_pos.Table
use hightower_pos.Table.{bit}
use hightower_pos.Model.{TillSession, Store, closed, till_key, save_till}
use hightower_pos.Till.{
  Counts, is_open_for, get_open_session, close_session, close_row, try_render_pdf, Renderer,
  denominations_to_cents, accepted, expected_closing, TillResult,
}
use hightower_pos.Till.OneOpen.{TillsOk, find-open, open-holds, try_render_pdf_cases}

-- The record of a close: the count, the expected amount, and the difference of the two.
pub record IsClosed (now : ℕ) (counts : Counts) (count : ℤ) (before after : TillSession)
    : Type 0 where
  pub same_id : after.id ≡ before.id
  pub status : after.status ≡ closed
  pub count_kept : after.closing_count_cents ≡ some count
  pub counts_kept : after.closing_denominations ≡ some counts
  pub expected : after.expected_closing_cents ≡ some (expected_closing before)
  pub variance : after.variance_cents ≡ some (count -ℤ expected_closing before)
  pub time : after.closed_at ≡ some now

-- A close that went through: the returned row records it, it is the stored row, and the cashier has
-- no open session.
abbrev pub Closes : ℕ → Text → Counts → ℤ → TillSession → TillResult TillSession × Store → Type 0
Closes now cashier_id counts count session (result, s') =
    (t : TillSession) × (result ≡ accepted t)
    × IsClosed now counts count session t
    × (Table.find till_key session.id s'.till_sessions ≡ some t)
    × (get_open_session cashier_id s' ≡ none)

no_open_left :
    (c : Text) (row old : TillSession) (s : Store)
    → Table.find till_key row.id s.till_sessions ≡ some old
    → Table.count (is_open_for c) s.till_sessions ≤ bit (is_open_for c old)
    → row.status ≡ closed
    → Table.count (is_open_for c) (save_till row s).till_sessions ≡ 0
no_open_left c row old s found most shut =
    ground
      (arith, shut, most, Table.count-put (is_open_for c) till_key row s.till_sessions old found)

none_from_count :
    (c : Text) (s : Store)
    → Table.count (is_open_for c) s.till_sessions ≡ 0
    → get_open_session c s ≡ none
unfolding get_open_session
none_from_count c s h = Table.first-count_zero (is_open_for c) s.till_sessions h

module _ (now : ℕ) (cashier_id : Text) (counts : Counts) (count : ℤ) (session : TillSession) where
  row-IsClosed : IsClosed now counts count session (close_row now counts count session)
  unfolding close_row
  row-IsClosed = record {
    same_id = refl;
    status = refl;
    count_kept = refl;
    counts_kept = refl;
    expected = refl;
    variance = refl;
    time = refl;
  }

  with_path :
      (path : Text) {t : TillSession}
      → IsClosed now counts count session t
      → IsClosed now counts count session (record t { pdf_path = some path })
  with_path path r = record {
    same_id = r.same_id;
    status = r.status;
    count_kept = r.count_kept;
    counts_kept = r.counts_kept;
    expected = r.expected;
    variance = r.variance;
    time = r.time;
  }

  -- The stored row `t`, before and after the report is rendered.
  rendered-Closes :
      (render : Renderer) (t : TillSession) (s : Store)
      → IsClosed now counts count session t
      → Table.find till_key t.id s.till_sessions ≡ some t
      → Table.count (is_open_for cashier_id) s.till_sessions ≡ 0
      → let (done, s') = try_render_pdf render t s in
        Closes now cashier_id counts count session (accepted done, s')
  rendered-Closes render t s r found zero_left = elim (try_render_pdf_cases render t s) [
    | inl same ↦
        rw same (t, refl, r, rw (← r.same_id) found, none_from_count cashier_id s zero_left)
    | inr (path, saved) ↦
        let t' : TillSession = record t { pdf_path = some path } in
        rw saved (
          t',
          refl,
          with_path path r,
          rw (← r.same_id) (Table.find-put_self till_key t' s.till_sessions t found),
          none_from_count cashier_id (save_till t' s)
              (no_open_left cashier_id t' t s found (omega (arith, zero_left)) r.status),
        )
  ]

-- A cashier with an open session and an accepted count closes it: the row holds the count, the
-- expected amount, and the count less the expected amount, whatever the count is and whatever the
-- report renderer does; the returned row is the stored one, and the cashier has no open session left.
pub close_session-Closes :
    (now : ℕ) (cashier_id : Text) (counts : Counts) (render : Renderer) (s : Store)
    (session : TillSession) (count : ℤ)
    → TillsOk s.till_sessions
    → get_open_session cashier_id s ≡ some session
    → denominations_to_cents counts ≡ accepted count
    → Closes now cashier_id counts count session (close_session now cashier_id counts render s)
unfolding close_session
close_session-Closes now cashier_id counts render s session count ok e good =
    let row = close_row now counts count session in
    let found = find-open cashier_id s session ok.keyed e in
    let r = row-IsClosed now cashier_id counts count session in
    rw (e, close_session, good)
      (rendered-Closes now cashier_id counts count session render row (save_till row s) r
        (Table.find-put_self till_key row s.till_sessions session found)
        (no_open_left cashier_id row session s found
          (ground (arith, ok.one_open cashier_id, open-holds cashier_id s session e)) refl))
