-- ===== src/Imap/Keepalive.antt =====
-- internal/imap/client.go: `startKeepalive`, as the steps of its goroutine beside a call of `Close`.
use go_boxcopy.Base.{
  Bool, true, false, List, [], ◌∷◌, none, some, ◌≡◌, ◌≢◌, subst, arith, if◌then◌else◌,
}
use go_boxcopy.Base.Errors.{ok, err}
use go_boxcopy.Imap.Api.{Api}
use go_boxcopy.Imap.Client.{Link, close, noop}

-- The goroutine waits in its `select`, and the flag says whether the channel that it waits on beside
-- the ticker is there or nil; or it has taken a tick and is about to call `Noop`; or it has returned.
pub data Keeper : Type 0 where
  waiting : Bool → Keeper
  pinging stopped : Keeper

-- A tick that the goroutine takes, its call of `Noop`, and a call of `Close` by another goroutine.
pub data Event : Type 0 where
  ticks pings closes : Event

module _ (api : Api) where
  pub record Watched : Type 0 where
    pub keeper : Keeper
    pub link : Link api

  -- The select statement, on entry: it reads the field `done`.
  unfoldable pub wait : Link api → Keeper
  wait l = waiting l.0.done

  unfoldable pub ping : Link api → Watched
  unfolding noop wait
  ping l =
      let (r, l') = noop api l in
      record { keeper = elim r [ ok _ ↦ wait l' | err _ ↦ stopped ]; link = l' }

  -- The close of the channel is seen only by a goroutine that waits on it.
  unfoldable pub signal : Link api → Keeper → Keeper
  signal (c, w) (waiting true) = elim c.conn [
    | none ↦ waiting true
    | some _ ↦ if c.done then stopped else waiting true
  ]
  signal l keeper = keeper

  unfoldable pub keeper_step : Event → Watched → Watched
  unfolding ping signal close
  keeper_step ticks s = elim s.keeper [
    | waiting _ ↦ record s { keeper = pinging }
    | pinging ↦ s
    | stopped ↦ s
  ]
  keeper_step pings s = elim s.keeper [ waiting _ ↦ s | pinging ↦ ping s.link | stopped ↦ s ]
  keeper_step closes s = record { keeper = signal s.link s.keeper; link = (close api s.link).1 }

  unfoldable pub keeper_run : List Event → Watched → Watched
  keeper_run [] s = s
  keeper_run (e ∷ es) s = keeper_run es (keeper_step e s)

  -- A goroutine that no event can stop, beside a client that is closed.
  abbrev CannotStop : Keeper → Type 0
  CannotStop (waiting open_channel) = open_channel ≡ false
  CannotStop pinging = Unit
  CannotStop stopped = ⊥

  abbrev pub IsLeaked : Watched → Type 0
  IsLeaked s = (s.link.0.conn ≡ none) × (s.link.0.done ≡ false) × CannotStop s.keeper

  closes-IsLeaked : (s : Watched) → IsLeaked s → IsLeaked (keeper_step closes s)
  unfolding keeper_step close
  closes-IsLeaked s h = ground arith

  ticks-IsLeaked : (s : Watched) → IsLeaked s → IsLeaked (keeper_step ticks s)
  unfolding keeper_step
  ticks-IsLeaked s h = ground arith

  pings-IsLeaked : (s : Watched) → IsLeaked s → IsLeaked (keeper_step pings s)
  unfolding keeper_step ping noop wait
  pings-IsLeaked s h = ground arith

  closes_pinging :
      (conn : api.Conn) (s : Watched)
      → s.keeper ≡ pinging
      → s.link.0.conn ≡ some conn
      → (close api s.link).0 ≡ ok tt
      → IsLeaked (keeper_step closes s)
  unfolding keeper_step close signal
  closes_pinging conn s p c e = ground arith

  keeper_run-IsLeaked : (es : List Event) (s : Watched) → IsLeaked s → IsLeaked (keeper_run es s)
  unfolding keeper_run
  keeper_run-IsLeaked [] s h = h
  keeper_run-IsLeaked (ticks ∷ es) s h = keeper_run-IsLeaked es _ (ticks-IsLeaked s h)
  keeper_run-IsLeaked (pings ∷ es) s h = keeper_run-IsLeaked es _ (pings-IsLeaked s h)
  keeper_run-IsLeaked (closes ∷ es) s h = keeper_run-IsLeaked es _ (closes-IsLeaked s h)

  -- When the client of a connection is closed without an error while the keepalive goroutine is about
  -- to send its NOOP, the goroutine never ends: whatever happens afterwards, it has not stopped.
  pub keeper_leaks :
      (conn : api.Conn) (s : Watched) (es : List Event)
      → s.keeper ≡ pinging
      → s.link.0.conn ≡ some conn
      → (close api s.link).0 ≡ ok tt
      → (keeper_run es (keeper_step closes s)).keeper ≢ stopped
  keeper_leaks conn s es p c e stop =
      let leaked = keeper_run-IsLeaked es (keeper_step closes s) (closes_pinging conn s p c e) in
      absurd (subst CannotStop stop leaked.2)

  -- A goroutine that waits when the client is closed stops.
  pub keeper_stops :
      (conn : api.Conn) (s : Watched)
      → s.keeper ≡ waiting true
      → s.link.0.conn ≡ some conn
      → s.link.0.done ≡ true
      → (keeper_step closes s).keeper ≡ stopped
  unfolding keeper_step signal
  keeper_stops conn s p c d = ground arith
