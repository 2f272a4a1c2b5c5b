-- ===== src/Connectors.antt =====
-- src/gwcConnector.h, and the connectors of src/fix, src/optiq, src/millennium, src/eti and src/swx
-- that are made behind it.
mod Tests
use fosdk.Common.{ℕ, false, String, Option}
use fosdk.Gwc.Env.{Env}
use fosdk.Gwc.Contract.{IsSession}
use fosdk.Fix
use fosdk.Fix.Invariant.{Inv as FixInv}
use fosdk.Fix.Contract.{fix_session, fix_session-IsSession}
use fosdk.Optiq
use fosdk.Optiq.Raw.{Packet}
use fosdk.Optiq.Invariant.{Inv as OptiqInv}
use fosdk.Optiq.Contract.{optiq_session, optiq_session-IsSession}
use fosdk.Millennium
use fosdk.Millennium.Kept.{Kept}
use fosdk.Millennium.Contract.{millennium_session, millennium_session-IsSession}
use fosdk.Eti
use fosdk.Eti.Invariant.{Inv as EtiInv}
use fosdk.Eti.Contract.{eti_session, eti_session-IsSession}
use fosdk.SoupBin
use fosdk.Swx
use fosdk.Swx.Invariant.{Inv as SwxInv}
use fosdk.Swx.Contract.{swx_session, swx_session-IsSession}

-- All five connectors keep the promises of the interface, with any codec, client and clock, in the
-- states of their invariants, each of which every event keeps: a session that is ready or waits for
-- the answer to its logoff counts as logged on; an order, a cancel, a modify or a message on a session
-- that is not ready is refused, and the state, the flags and the mutex stay as they are; a stop closes
-- such a session; and a stop that succeeds on one that is ready leaves it waiting for the answer.
pub all-IsSession :
    (F : Env Fix.Seqnums) (c : Fix.Seqnums) (d : ℕ) (O : Env Optiq.Seqnums) (k : Optiq.Codes)
    (p : Packet) (c' : Optiq.Seqnums) (d' : ℕ) (M : Env Millennium.SeqNum)
    (L : Millennium.Layout M.Msg) (n : ℕ → Option ℕ) (i : ℕ) (T : Env Eti.Item) (I : Eti.Ids)
    (X : Env SoupBin.SeqNum) (x : Swx.Codes) (clip : String → String)
    → IsSession (fix_session F c d) (FixInv c d)
      × IsSession (optiq_session O k p c' d') (OptiqInv false c' d')
      × IsSession (millennium_session M L n i) (Kept M L n i)
      × IsSession (eti_session T I) (EtiInv {Msg = T.Msg})
      × IsSession (swx_session X x clip) (SwxInv {Msg = X.Msg})
all-IsSession F c d O k p c' d' M L n i T I X x clip = (
  fix_session-IsSession F c d,
  optiq_session-IsSession O k p c' d',
  millennium_session-IsSession M L n i,
  eti_session-IsSession T I,
  swx_session-IsSession X x clip,
)
