-- ===== src/Station/Reports.antt =====
-- Which reports the station sends:
-- firmware/charging-station/components/wifi_reporter/wifi_reporter.c.
use companion_robot.Base.{
  ◌≡◌, refl, ap, ◌∙◌, true, false, Option, some, List, [], ◌∷◌, ◌++◌, map, length, All, arith,
  Bool-cases, inl, inr,
}
use companion_robot.Station.Loop.{Report}
use companion_robot.Station.Reporter.{
  Reporter, Link, connect_if_needed, take_event, send_report, reporter_round, run_reporter,
}

-- Reports are enabled exactly while a socket is open.
abbrev pub IsPaired : Reporter → Type 0
IsPaired r = r.report_enabled ≡ r.sock_open

-- The first report of a list, or else the one given.
abbrev pub head_or : List Report → Report → Report
head_or [] e = e
head_or (newer ∷ es) e = newer

-- A link over which everything works.
abbrev pub Works : Link → Type 0
Works l = (l.connects ≡ true) × (l.sends ≡ true)

working_round :
    (l : Link) (e : Report) (es : List Report) (r : Reporter)
    → Works l
    → r.started ≡ true
    → r.queue ≡ e ∷ es
    → IsPaired r
    → ((reporter_round l r).1 ≡ some e ∷ [])
      × ((reporter_round l r).0.queue ≡ es)
      × ((reporter_round l r).0.started ≡ true)
      × IsPaired (reporter_round l r).0
unfolding reporter_round connect_if_needed send_report take_event
working_round l e es r (c, s) t q p = elim (Bool-cases r.sock_open) [
  | inl o ↦ (
    simp (p, o, c, s, t, q) refl,
    simp (p, o, c, s, t, q) refl,
    simp (p, o, c, s, t, q) refl,
    simp (p, o, c, s, t, q) refl,
  )
  | inr o ↦ (
    simp (p, o, c, s, t, q) refl,
    simp (p, o, c, s, t, q) refl,
    simp (p, o, c, s, t, q) refl,
    simp (p, o, c, s, t, q) refl,
  )
]

-- Once the task has started, with reports enabled exactly while the socket is open: as many rounds
-- as there are reports in the queue, over a link that works, send these reports in their order,
-- and no other.
pub reports_in_order :
    (es : List Report) (ls : List Link) (r : Reporter)
    → r.started ≡ true
    → r.queue ≡ es
    → IsPaired r
    → length ls ≡ length es
    → All Works ls
    → (run_reporter ls r).1 ≡ map some es
unfolding run_reporter
reports_in_order [] [] r t q p n w = refl
reports_in_order [] (l ∷ ls) r t q p n w = absurd (omega (arith, n))
reports_in_order (e ∷ es) [] r t q p n w = absurd (omega (arith, n))
reports_in_order (e ∷ es) (l ∷ ls) r t q p n (w, ws) =
    let (s, q', t', p') = working_round l e es r w t q p in
    ap (λ (x : List (Option Report)). x ++ (run_reporter ls (reporter_round l r).0).1) s
    ∙ ap (◌∷◌ (some e))
        (reports_in_order es ls (reporter_round l r).0 t' q' p' (omega (arith, n)) ws)

-- What a round leaves whose send fails.
record Fails (e : Report) (es : List Report) (r : Reporter) : Type 0 where
  closed : r.sock_open ≡ false
  paired : IsPaired r
  runs : r.started ≡ true
  waiting : r.queue ≡ es
  kept : r.ev ≡ some e

failing_round :
    (l : Link) (e : Report) (es : List Report) (r : Reporter)
    → (l.connects ≡ true) × (l.sends ≡ false)
    → r.started ≡ true
    → r.queue ≡ e ∷ es
    → IsPaired r
    → ((reporter_round l r).1 ≡ []) × Fails e es (reporter_round l r).0
unfolding reporter_round connect_if_needed send_report take_event
failing_round l e es r (c, s) t q p = elim (Bool-cases r.sock_open) [
  | inl o ↦ (
    simp (p, o, c, s, t, q) refl,
    record {
      closed = simp (p, o, c, s, t, q) refl;
      paired = simp (p, o, c, s, t, q) refl;
      runs = simp (p, o, c, s, t, q) refl;
      waiting = simp (p, o, c, s, t, q) refl;
      kept = simp (p, o, c, s, t, q) refl;
    },
  )
  | inr o ↦ (
    simp (p, o, c, s, t, q) refl,
    record {
      closed = simp (p, o, c, s, t, q) refl;
      paired = simp (p, o, c, s, t, q) refl;
      runs = simp (p, o, c, s, t, q) refl;
      waiting = simp (p, o, c, s, t, q) refl;
      kept = simp (p, o, c, s, t, q) refl;
    },
  )
]

-- A round over a link that works, with no new report.
repeating_round :
    (l : Link) (e : Report) (r : Reporter)
    → Works l
    → Fails e [] r
    → (reporter_round l r).1 ≡ some e ∷ []
unfolding reporter_round connect_if_needed send_report take_event
repeating_round l e r (c, s) f = simp (f.paired, f.closed, f.runs, f.waiting, f.kept, c, s) refl

after_failure :
    (l : Link) (e : Report) (es : List Report) (r : Reporter)
    → Works l
    → Fails e es r
    → (reporter_round l r).1 ≡ some (head_or es e) ∷ []
after_failure l e [] r w f = repeating_round l e r w f
after_failure l e (newer ∷ es) r w f = (working_round l newer es r w f.runs f.waiting f.paired).0

-- A report that fails to be sent closes the socket, and the next round over a link that works
-- sends it, if no newer report is in the queue; if one is, that is sent in its place.
failed_report_repeats :
    (l l' : Link) (e : Report) (es : List Report) (r : Reporter)
    → r.started ≡ true
    → r.queue ≡ e ∷ es
    → IsPaired r
    → (l.connects ≡ true) × (l.sends ≡ false)
    → Works l'
    → let failed = reporter_round l r in
      (failed.1 ≡ [])
      × (failed.0.sock_open ≡ false)
      × ((reporter_round l' failed.0).1 ≡ some (head_or es e) ∷ [])
failed_report_repeats l l' e es r t q p c w =
    let (none_sent, f) = failing_round l e es r c t q p in
    (none_sent, f.closed, after_failure l' e es (reporter_round l r).0 w f)
