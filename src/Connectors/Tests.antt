-- ===== src/Connectors/Tests.antt =====
-- The theorems on every connector at concrete inputs.
use fosdk.Common.{false, none, pos}
use fosdk.Gwc.Sample.{Table, sample_env}
use fosdk.Gwc.Contract.{IsSession}
use fosdk.Fix
use fosdk.Fix.Invariant.{Inv as FixInv}
use fosdk.Fix.Contract.{fix_session}
use fosdk.Optiq
use fosdk.Optiq.Sample.{codes as optiq_codes, packet}
use fosdk.Optiq.Invariant.{Inv as OptiqInv}
use fosdk.Optiq.Contract.{optiq_session}
use fosdk.Millennium.Sample.{layout}
use fosdk.Millennium.Kept.{Kept}
use fosdk.Millennium.Contract.{millennium_session}
use fosdk.Eti.Sample.{ids}
use fosdk.Eti.Invariant.{Inv as EtiInv}
use fosdk.Eti.Contract.{eti_session}
use fosdk.Swx.Sample.{sample, codes}
use fosdk.Swx.Invariant.{Inv as SwxInv}
use fosdk.Swx.Contract.{swx_session}
use fosdk.Connectors.{all-IsSession}

abbrev fix_numbers : Fix.Seqnums
fix_numbers = record { inbound = pos 1; outbound = pos 1 }

abbrev optiq_numbers : Optiq.Seqnums
optiq_numbers = record { inbound = pos 0; outbound = pos 0 }

all-IsSession_example :
    IsSession (fix_session sample_env fix_numbers 0) (FixInv fix_numbers 0)
    × IsSession
        (optiq_session sample_env optiq_codes packet optiq_numbers 0)
        (OptiqInv false optiq_numbers 0)
    × IsSession
        (millennium_session sample_env layout (λ p. none) 1)
        (Kept sample_env layout (λ p. none) 1)
    × IsSession (eti_session sample_env ids) (EtiInv {Msg = Table})
    × IsSession (swx_session sample codes (λ t. t)) (SwxInv {Msg = Table})
all-IsSession_example =
    all-IsSession sample_env fix_numbers 0 sample_env optiq_codes packet optiq_numbers 0 sample_env
      layout (λ p. none) 1 sample_env ids sample codes (λ t. t)
