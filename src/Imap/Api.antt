-- ===== src/Imap/Api.antt =====
-- The interface to what the program calls and does not implement: the commands of the IMAP library
-- on a connection, the clock and the cancellation of the context. Each call may change the world,
-- that is the servers, the network and the time.
use go_boxcopy.Base.{ℕ, String, Bool, List, Option}
use go_boxcopy.Base.Int.{ℤ}
use go_boxcopy.Base.Errors.{Error, Result}
use go_boxcopy.State.Data.{Time}
use go_boxcopy.Imap.Data.{
  Bytes, FetchData, Stream, WireFetchOptions, SelectData, ListData, StatusData, UidRange, StoreOp,
}

pub record Api : Type 1 where
  pub World : Type 0
  -- *imapclient.Client
  pub Conn : Type 0
  -- `DialTLS`, or a plain dial and `New`, to a host and port
  pub dial : Bool → String → ℤ → World → Result Conn × World
  pub login : Conn → String → String → World → Option Error × World
  pub logout : Conn → World → Option Error × World
  pub close : Conn → World → Option Error × World
  pub noop : Conn → World → Option Error × World
  -- mailbox, and whether read-only
  pub select : Conn → String → Bool → World → Result SelectData × World
  pub unselect : Conn → World → Option Error × World
  -- pattern, and whether the status is asked for
  pub list : Conn → String → Bool → World → Stream ListData × World
  pub create : Conn → String → World → Option Error × World
  pub delete : Conn → String → World → Option Error × World
  pub rename : Conn → String → String → World → Option Error × World
  pub status : Conn → String → World → Result StatusData × World
  pub fetch : Conn → UidRange → WireFetchOptions → World → Stream FetchData × World
  -- mailbox, flags, time and body: writing the body, closing and waiting each may fail; the data
  -- of the answer may be missing
  pub append_write :
      Conn → String → List String → Option Time → Bytes → World → Option Error × World
  pub append_close : Conn → World → Option Error × World
  pub append_wait : Conn → World → Result (Option ℕ) × World
  pub store : Conn → UidRange → StoreOp → List String → World → Option Error × World
  pub expunge : Conn → World → Option Error × World
  pub copy : Conn → UidRange → String → World → Option Error × World
  pub move : Conn → UidRange → String → World → Option Error × World
  pub uid_search : Conn → Time → World → Result (List ℕ) × World
  -- time.Now
  pub now : World → Time × World
  -- ctx.Err()
  pub ctx_err : World → Option Error × World
  -- Throttle.Process up to the point where it runs its task: an error if it refuses to
  pub admit : World → Option Error × World
