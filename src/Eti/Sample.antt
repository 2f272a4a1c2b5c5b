-- ===== src/Eti/Sample.antt =====
-- Concrete parameters of the ETI connector, with which the theorems are applied.
use fosdk.Common.{[], false}
use fosdk.Eti.{Ids}

abbrev pub ids : Ids
ids = record { bytes_of = λ t. []; text_of = λ b. ""; appl_resend_flag_is_1 = false }
