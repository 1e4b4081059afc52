-- ===== src/Mailbox/Settled.antt =====
-- internal/mailbox/mailbox.go: how a copy leaves its mailbox.
use go_boxcopy.Base.{ℕ, String, ◌≡◌, refl, Bool, List, none, some, inl, inr, ◌⊎◌, Option, ap, ◌∙◌}
use go_boxcopy.Base.Errors.{Error, Result, ok, err, Result-cases}
use go_boxcopy.Base.Exec.{pure, raise, resume, handle}
use go_boxcopy.Base.Keeps.{Keeps-handle}
use go_boxcopy.Imap.Api.{Api}
use go_boxcopy.Imap.Client.{Client}
use go_boxcopy.Mailbox.Data.{
  Job, Mailbox, Sys, idle, error, connecting, disconnecting, set_status, set_error,
}
use go_boxcopy.Mailbox.Box.{
  set, fail, both, dial_source, dial_target, close_client, close_if, connect_target, connect_anew,
  connect, disconnect, copy_connected, then_disconnect, copy,
}

module _ (api : Api) (job : Job) where
  open api use {World, Conn}

  -- No client is left, and the mailbox is idle, or reports an error.
  pub record IsSettled (m : Mailbox Conn) : Type 0 where
    pub no_source : m.source_client ≡ none
    pub no_target : m.target_client ≡ none
    pub rests : (m.status ≡ idle) ⊎ ((m.status ≡ error) × ((e : Error) × (m.last_error ≡ some e)))

  close_if_box :
      (format : String) (c : Option (Client Conn)) (s : Sys Conn World)
      → (close_if api job format c s).1.box ≡ s.box
  unfolding close_if close_client
  close_if_box format none s = refl
  close_if_box format (some c) s =
      Keeps-handle (λ t. t.box ≡ s.box) (close_client api job c) pure _ (λ t k. k) (λ _ t k. k)
        (λ _ t k. k) s refl

  settle :
      (r : Result (Unit {0})) (s : Sys Conn World)
      → s.box.source_client ≡ none
      → s.box.target_client ≡ none
      → s.box.status ≡ idle
      → IsSettled (resume pure (fail api job) (r, s)).1.box
  settle (ok _) s a b c = record { no_source = a; no_target = b; rests = inl c }
  settle (err e) s a b c = record { no_source = a; no_target = b; rests = inr (refl, (e, refl)) }

  disconnect-IsSettled : (s : Sys Conn World) → IsSettled (disconnect api job s).1.box
  unfolding disconnect
  disconnect-IsSettled s =
      let s1 = record s {
        box = record s.box { status = disconnecting; source_client = none; target_client = none };
      } in
      let c1 = close_if api job "source disconnect: %w" s.box.source_client s1 in
      let c2 = close_if api job "target disconnect: %w" s.box.target_client c1.1 in
      let e =
        close_if_box "target disconnect: %w" s.box.target_client c1.1
        ∙ close_if_box "source disconnect: %w" s.box.source_client s1 in
      settle (both api job c1.0 c2.0) (record c2.1 { box = set_status idle c2.1.box })
        (ap (λ m. m.source_client) e) (ap (λ m. m.target_client) e) refl

  -- A connect that fails has settled.
  abbrev Outcome : Result (Unit {0}) × Sys Conn World → Type 0
  Outcome (ok _, s) = Unit
  Outcome (err e, s) = IsSettled s.box

  set_error-IsSettled :
      (e : Error) (m : Mailbox Conn)
      → m.source_client ≡ none
      → m.target_client ≡ none
      → IsSettled (set_error e m)
  set_error-IsSettled e m a b = record {
    no_source = a;
    no_target = b;
    rests = inr (refl, (e, refl));
  }

  connect_target-Outcome :
      (source : Client Conn) (s : Sys Conn World)
      → s.box.target_client ≡ none
      → Outcome (connect_target api job source s)
  unfolding connect_target dial_target close_client handle
  connect_target-Outcome source s b = elim (Result-cases (dial_target api job s).0) [
    | inl (target, e) ↦ rw (e, connect_target) tt
    | inr (d, e) ↦ elim (Result-cases (close_client api job source (dial_target api job s).1).0) [
      | inl (_, f) ↦
          rw (e, f, connect_target)
            (set_error-IsSettled _ (record s.box { source_client = none }) refl b)
      | inr (_, f) ↦
          rw (e, f, connect_target)
            (set_error-IsSettled _ (record s.box { source_client = none }) refl b)
    ]
  ]

  connect-Outcome :
      (s : Sys Conn World)
      → s.box.source_client ≡ none
      → s.box.target_client ≡ none
      → Outcome (connect api job s)
  unfolding connect connect_anew dial_source handle
  connect-Outcome s a b =
      elim (Result-cases (dial_source api job (set api job (set_status connecting) s).1).0) [
        | inl (source, e) ↦ rw (a, connect, e) (connect_target-Outcome source _ b)
        | inr (d, e) ↦ rw (a, connect, e) (set_error-IsSettled _ (set_status connecting s.box) a b)
      ]

  after_connect :
      (plan : ℕ → List Bool) (c : Result (Unit {0}) × Sys Conn World)
      → Outcome c
      → IsSettled
          (resume (λ _. then_disconnect api job (copy_connected api job plan)) raise c).1.box
  unfolding then_disconnect
  after_connect plan (ok _, t) h = disconnect-IsSettled _
  after_connect plan (err e, t) h = h

  -- A mailbox without clients has none after a copy, however the copy ends, and it is idle, or in
  -- error with an error that it keeps.
  pub copy-IsSettled :
      (plan : ℕ → List Bool) (s : Sys Conn World)
      → s.box.source_client ≡ none
      → s.box.target_client ≡ none
      → IsSettled (copy api job plan s).1.box
  unfolding copy handle
  copy-IsSettled plan s a b = after_connect plan (connect api job s) (connect-Outcome s a b)

  settle_ok :
      (r : Result (Unit {0})) (s : Sys Conn World)
      → s.box.status ≡ idle
      → (resume pure (fail api job) (r, s)).0 ≡ ok tt
      → (resume pure (fail api job) (r, s)).1.box.status ≡ idle
  settle_ok (ok _) s c h = c
  settle_ok (err e) s c h = cc

  disconnect_ok :
      (s : Sys Conn World)
      → (disconnect api job s).0 ≡ ok tt
      → (disconnect api job s).1.box.status ≡ idle
  unfolding disconnect
  disconnect_ok s h =
      let s1 = record s {
        box = record s.box { status = disconnecting; source_client = none; target_client = none };
      } in
      let c1 = close_if api job "source disconnect: %w" s.box.source_client s1 in
      let c2 = close_if api job "target disconnect: %w" s.box.target_client c1.1 in
      settle_ok (both api job c1.0 c2.0) (record c2.1 { box = set_status idle c2.1.box }) refl h

  -- A copy that fails after it has connected reports its error, but where the disconnect that ends
  -- it succeeds, the mailbox is left idle, not in error.
  pub copy_connected_failed :
      (plan : ℕ → List Bool) (s : Sys Conn World) (e : Error)
      → (copy_connected api job plan s).0 ≡ err e
      → (disconnect api job (copy_connected api job plan s).1).0 ≡ ok tt
      → ((then_disconnect api job (copy_connected api job plan) s).0 ≡ err e)
        × ((then_disconnect api job (copy_connected api job plan) s).1.box.status ≡ idle)
  unfolding then_disconnect
  copy_connected_failed plan s e h d =
      (rw h refl, disconnect_ok (copy_connected api job plan s).1 d)
