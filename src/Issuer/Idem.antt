-- ===== src/Issuer/Idem.antt =====
-- crates/lluma-issuer/src/idem.rs: the cache that makes issuance idempotent. Each function is one
-- critical section of its mutex.
use lluma.Common.{
  ◌≡◌, refl, Bool, ◌&&◌, Option, none, some, List, [], ◌∷◌, ◌==◌, if◌then◌else◌, arith, ◌⊎◌,
}
use lluma.Core.Wire.{Array32, AccountId}
use lluma.Core.Proto.{IssueResponse}

pub data BeginOutcome : Type 0 where
  reserved conflict in_flight : BeginOutcome
  replay : IssueResponse → BeginOutcome

pub data Entry : Type 0 where
  pending : Array32 → Entry
  done : Array32 → IssueResponse → Entry

-- `HashMap<(AccountId, [u8; 32]), Entry>`
abbrev pub Cache : Type 0
Cache = List (AccountId × Array32 × Entry)

abbrev same_slot : AccountId → Array32 → AccountId → Array32 → Bool
same_slot a r b q = (a == b) && (r == q)

unfoldable pub get : Cache → AccountId → Array32 → Option Entry
get [] a r = none
get ((b, q, e) ∷ m) a r = if same_slot b q a r then some e else get m a r

pub insert : Cache → AccountId → Array32 → Entry → Cache
insert [] a r e = (a, r, e) ∷ []
insert ((b, q, f) ∷ m) a r e =
    if same_slot b q a r then (b, q, e) ∷ m else (b, q, f) ∷ insert m a r e

pub remove : Cache → AccountId → Array32 → Cache
remove [] a r = []
remove ((b, q, f) ∷ m) a r = if same_slot b q a r then remove m a r else (b, q, f) ∷ remove m a r

-- What `begin` returns for the entry that it finds.
abbrev pub judge : Option Entry → Array32 → BeginOutcome
judge none batch_hash = reserved
judge (some (pending h)) batch_hash = if h == batch_hash then in_flight else conflict
judge (some (done h resp)) batch_hash = if h == batch_hash then replay resp else conflict

abbrev reserve : Cache → AccountId → Array32 → Array32 → Option Entry → Cache
reserve m account request_id batch_hash none = insert m account request_id (pending batch_hash)
reserve m account request_id batch_hash (some e) = m

unfoldable pub begin : Cache → AccountId → Array32 → Array32 → BeginOutcome × Cache
begin m account request_id batch_hash = (
  judge (get m account request_id) batch_hash,
  reserve m account request_id batch_hash (get m account request_id),
)

unfoldable pub store : Cache → AccountId → Array32 → Array32 → IssueResponse → Cache
store m account request_id batch_hash resp = insert m account request_id (done batch_hash resp)

unfoldable pub release : Cache → AccountId → Array32 → Cache
release m account request_id = remove m account request_id

pub get-insert :
    (m : Cache) (a : AccountId) (r : Array32) (e : Entry) (b : AccountId) (q : Array32)
    → get (insert m a r e) b q ≡ (if same_slot a r b q then some e else get m b q)
unfolding get insert
get-insert [] a r e b q = refl
get-insert ((c, p, f) ∷ m) a r e b q = ground (arith, get-insert m a r e b q)

pub get-remove :
    (m : Cache) (a : AccountId) (r : Array32) (b : AccountId) (q : Array32)
    → get (remove m a r) b q ≡ (if same_slot a r b q then none else get m b q)
unfolding get remove
get-remove [] a r b q = ground arith
get-remove ((c, p, f) ∷ m) a r b q = ground (arith, get-remove m a r b q)

-- While a slot is reserved, a second request for it gets nothing to do: it is in flight if it is the
-- same batch, and a conflict if not, and the cache stays as it is. No other slot is touched by the
-- reservation.
pub begin-begin :
    (m : Cache) (a : AccountId) (r h h' : Array32) (b : AccountId) (q : Array32)
    → (begin m a r h).0 ≡ reserved
    → let m' = (begin m a r h).1 in
      ((begin m' a r h').0 ≡ (if h == h' then in_flight else conflict))
      × ((begin m' a r h').1 ≡ m')
      × (((a ≡ b) × (r ≡ q)) ⊎ (get m' b q ≡ get m b q))
unfolding begin
begin-begin m a r h h' b q res =
    ground (arith, get-insert m a r (pending h) a r, get-insert m a r (pending h) b q)

-- A stored response is replayed to the same batch, and to no other.
pub begin-store :
    (m : Cache) (a : AccountId) (r h h' : Array32) (resp : IssueResponse)
    → begin (store m a r h resp) a r h'
      ≡ ((if h == h' then replay resp else conflict), store m a r h resp)
unfolding begin store
begin-store m a r h h' resp = ground (arith, get-insert m a r (done h resp) a r)

-- A released slot is free again.
pub begin-release :
    (m : Cache) (a : AccountId) (r h : Array32) → (begin (release m a r) a r h).0 ≡ reserved
unfolding begin release
begin-release m a r h = ground (arith, get-remove m a r a r)
