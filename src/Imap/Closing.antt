-- ===== src/Imap/Closing.antt =====
-- internal/imap/client.go: `Close`.
use go_boxcopy.Base.{◌≡◌, none, arith}
use go_boxcopy.Base.Errors.{ok}
use go_boxcopy.Imap.Api.{Api}
use go_boxcopy.Imap.Client.{Link, close}

module _ (api : Api) where
  close_closed : (l : Link api) → l.0.conn ≡ none → close api l ≡ (ok tt, l)
  unfolding close
  close_closed l e = ground arith

  closed : (l : Link api) → (close api l).0 ≡ ok tt → (close api l).1.0.conn ≡ none
  unfolding close
  closed l h = ground arith

  -- A client that has been closed without an error can be closed again: the second close succeeds,
  -- and neither the client nor the world changes.
  pub close-close :
      (l : Link api)
      → (close api l).0 ≡ ok tt
      → close api (close api l).1 ≡ (ok tt, (close api l).1)
  close-close l h = close_closed (close api l).1 (closed l h)
