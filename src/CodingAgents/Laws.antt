-- ===== src/CodingAgents/Laws.antt =====
-- The watch and the wait return once the process is gone, or the call is cancelled.
use j.Prelude.{
  ℕ, ◌≡◌, ◌⊎◌, inl, inr, refl, sym, ap, ◌∙◌, Bool, true, false, Bool-cases, Text, List, [], ◌∷◌,
  some, is_empty, text_eq, text_eq_sound, ltb, ◌&&◌, ◌==◌, not, if◌then◌else◌,
}
use j.CodingAgents.{
  Wake, cancelled, tick, file_event, watch, Poll, interrupted, polled, poll_exit, Backend,
  wait_for_exit, watch_active_resume_id, watch_and_save, ResumeProcess, found, waited, behind_watch,
  capture_process, Agent, lookup_agent,
}

-- The call is cancelled, or a tick finds the process gone.
abbrev pub ends_watch : Wake → Bool
ends_watch cancelled = true
ends_watch (tick id alive) = not alive
ends_watch (file_event id) = false

abbrev pub ends_wait : Poll → Bool
ends_wait interrupted = true
ends_wait (polled alive) = not alive

unfoldable pub any : {A : Type 0} → (A → Bool) → List A → Bool
any p [] = false
any p (x ∷ xs) = if p x then true else any p xs

watch_returns : (ws : List Wake) → any ends_watch ws ≡ true → (id : Text) × (watch ws ≡ some id)
unfolding watch any
watch_returns [] h = absurd (cc)
watch_returns (cancelled ∷ ws) h = ([], refl)
watch_returns (tick id true ∷ ws) h =
    let (other, e) = watch_returns ws h in
    elim (Bool-cases (is_empty id)) [
      | inl blank ↦ (other, rw blank e)
      | inr there ↦ (id, rw there refl)
    ]
watch_returns (tick id false ∷ ws) h = elim (Bool-cases (is_empty id)) [
  | inl blank ↦ ([], rw blank refl)
  | inr there ↦ (id, rw there refl)
]
watch_returns (file_event id ∷ ws) h =
    let (other, e) = watch_returns ws h in
    elim (Bool-cases (is_empty id)) [
      | inl blank ↦ (other, rw blank e)
      | inr there ↦ (id, rw there refl)
    ]

wait_returns : (ps : List Poll) → any ends_wait ps ≡ true → (f : Bool) × (poll_exit ps ≡ some f)
unfolding poll_exit any
wait_returns [] h = absurd (cc)
wait_returns (interrupted ∷ ps) h = (true, refl)
wait_returns (polled true ∷ ps) h = wait_returns ps h
wait_returns (polled false ∷ ps) h = (false, refl)

-- The process of a run ends, or the call is cancelled, within what the loops wake up for.
pub record Ends (b : Backend) : Type 0 where
  pub watch_stops : any ends_watch b.wakes ≡ true
  pub wait_stops : any ends_wait b.polls ≡ true

pub exit_returns : (b : Backend) (pid : ℕ) → Ends b → (f : Bool) × (wait_for_exit b pid ≡ some f)
unfolding wait_for_exit
exit_returns b pid h = elim (Bool-cases (pid == 0)) [
  | inl ended ↦ (false, rw ended refl)
  | inr started ↦
      let (f, e) = wait_returns b.polls h.wait_stops in
      elim (Bool-cases b.alive) [
        | inl runs ↦ (f, rw (started, runs) e)
        | inr gone ↦ (false, rw (started, gone) refl)
      ]
]

active_returns : (b : Backend) → Ends b → (id : Text) × (watch_active_resume_id b ≡ some id)
unfolding watch_active_resume_id
active_returns b h =
    let (id, e) = watch_returns b.wakes h.watch_stops in
    elim (Bool-cases b.watcher_fails) [
      | inl fails ↦ ([], rw fails refl)
      | inr works ↦ (id, rw works e)
    ]

module _ {S : Type 0} (record_session : Text → S → S) where
  -- The recorder's state behind a capture: as it was, or with an id recorded.
  abbrev pub Recorded : S → S → Type 0
  Recorded s s' = (s' ≡ s) ⊎ ((id : Text) × (s' ≡ record_session id s))

  found_returns :
      (s : S) (id : Text)
      → (r : Text × S) × (found record_session s (some id) ≡ some r) × Recorded s r.1
  unfolding found
  found_returns s id = elim (Bool-cases (is_empty id)) [
    | inl blank ↦ ((id, s), rw blank refl, inl refl)
    | inr there ↦ ((id, record_session id s), rw there refl, inr (id, refl))
  ]

  save_returns :
      (b : Backend) (pid : ℕ) (s : S)
      → Ends b
      → (r : Text × S) × (watch_and_save record_session b pid s ≡ some r) × Recorded s r.1
  unfolding watch_and_save
  save_returns b pid s h = elim (Bool-cases (b.captures && ltb 0 pid)) [
    | inr goes_on ↦ (([], s), rw goes_on refl, inl refl)
    | inl waits ↦ elim (Bool-cases (is_empty b.at_once)) [
      | inr there ↦
          ((b.at_once, record_session b.at_once s), rw (waits, there) refl, inr (b.at_once, refl))
      | inl blank ↦
          let (id, e) = active_returns b h in
          let (r, f, kept) = found_returns s id in (r, rw (waits, blank, e) f, kept)
    ]
  ]

  watched_returns :
      (b : Backend) (p : ResumeProcess) (r : Text × S)
      → Ends b
      → (f : Bool) × (behind_watch record_session b p (some r) ≡ some (r.0, f, r.1))
  unfolding behind_watch waited
  watched_returns b p r h = elim (Bool-cases (ltb 0 p.pid && p.wait)) [
    | inr goes_on ↦ (false, rw goes_on refl)
    | inl waits ↦ let (f, e) = exit_returns b p.pid h in (f, rw (waits, e) refl)
  ]

  -- CaptureAndSaveProcessResumeID returns once the process is gone or the call is cancelled, and it
  -- records one session at most.
  pub capture_returns :
      (b : Backend) (p : ResumeProcess) (s : S)
      → Ends b
      → (id : Text) × (f : Bool) × (s' : S) × (capture_process record_session b p s
          ≡ some (id, f, s'))
        × Recorded s s'
  unfolding capture_process
  capture_returns b p s h = elim (Bool-cases (ltb 0 p.pid && is_empty p.resume_id)) [
    | inl new ↦
        let (r, e, kept) = save_returns b p.pid s h in
        let (f, g) = watched_returns b p r h in (r.0, f, r.1, rw (new, e) g, kept)
    | inr old ↦
        let (f, g) = watched_returns b p (p.resume_id, s) h in
        (p.resume_id, f, s, rw old g, inl refl)
  ]

-- A backend that is found has the name that was looked for, and is found by it.
pub lookup_name :
    (agents : List Agent) (name : Text) (a : Agent)
    → lookup_agent agents name ≡ some a
    → a.name ≡ name
unfolding lookup_agent
lookup_name [] name a h = absurd (cc)
lookup_name (b ∷ rest) name a h = elim (Bool-cases (text_eq b.name name)) [
  | inl same ↦
      let found : b ≡ a = cc (rw same at h) in
      ap (λ (x : Agent). x.name) (sym found) ∙ text_eq_sound b.name name same
  | inr differs ↦ lookup_name rest name a (rw differs at h)
]
