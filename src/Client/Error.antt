-- ===== src/Client/Error.antt =====
-- crates/lluma-client/src/lib.rs: the errors of the client, and what others become.
use lluma.Common.{ℕ, ◌≡◌, Result, ok, err, arith}
use lluma.Crypto.Account.{Fallible}
use lluma.Net.Framing.{NetError}

pub data ClientError : Type 0 where
  transport protocol crypto not_final : ClientError
  relay server : ℕ → ClientError

-- `From<NetError>` and `From<CryptoError>`, as `?` applies them.
abbrev pub from_net : NetError → ClientError
from_net (NetError.relay s) = relay s
from_net NetError.bootstrap = transport
from_net NetError.encapsulation = transport
from_net NetError.not_final = transport
from_net NetError.bhttp = transport
from_net NetError.http = transport
from_net NetError.crypto = transport

abbrev pub net_ok : {A : Type 0} → Result NetError A → Result ClientError A
net_ok (ok a) = ok a
net_ok (err e) = err (from_net e)

abbrev pub crypto_ok : {A : Type 0} → Fallible A → Result ClientError A
crypto_ok (ok a) = ok a
crypto_ok (err e) = err crypto

pub crypto_ok-eq-ok : {A : Type 0} (r : Fallible A) (a : A) → crypto_ok r ≡ ok a → r ≡ ok a
crypto_ok-eq-ok (ok b) a h = ground (arith, h)
crypto_ok-eq-ok (err e) a h = absurd (ground (arith, h))
