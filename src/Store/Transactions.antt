-- ===== src/Store/Transactions.antt =====
-- What a managed transaction keeps.
use edtech_lms_api.Prelude.{◌≡◌, refl, arith}
use edtech_lms_api.Errors.{Result, ok, err, Failure, ◌>>=◌}
use edtech_lms_api.Store.{Db, settle, transaction}

-- A transaction of checks, then writes: it leaves what it found where the checks refuse, and the
-- writes' tables where they pass.
pub transaction-keeps :
    {A B : Type 0} (P : Db → Type 0) (checks : Db → Result A) (writes : Db → A → B × Db) (db : Db)
    → P db
    → ((a : A) → checks db ≡ ok a → P (writes db a).1)
    → P (transaction (λ d. checks d >>= λ a. ok (writes d a)) db).1
transaction-keeps {A} {B} P checks writes db p step = go (checks db) refl
  where
    go : (r : Result A) → checks db ≡ r → P (settle db (r >>= λ a. ok (writes db a))).1
    go (ok a) h = step a h
    go (err e) h = p

-- A refused transaction changes nothing.
pub transaction-refused :
    {A : Type 0} (body : Db → Result (A × Db)) (db : Db) (e : Failure)
    → (transaction body db).0 ≡ err e
    → (transaction body db).1 ≡ db
transaction-refused {A} body db e h = go (body db) h
  where
    go : (r : Result (A × Db)) → (settle db r).0 ≡ err e → (settle db r).1 ≡ db
    go (ok (a, d)) q = absurd (ground arith)
    go (err f) q = refl

-- A transaction of checks, then writes, that returns has passed its checks, and leaves the writes'
-- tables.
pub transaction-ok :
    {A B : Type 0} (checks : Db → Result A) (writes : Db → A → B × Db) (db : Db) (b : B)
    → (transaction (λ d. checks d >>= λ a. ok (writes d a)) db).0 ≡ ok b
    → (a : A) × (checks db ≡ ok a)
      × ((writes db a).0 ≡ b)
      × ((transaction (λ d. checks d >>= λ e. ok (writes d e)) db).1 ≡ (writes db a).1)
transaction-ok {A} {B} checks writes db b h = go (checks db) refl h
  where
    go :
        (r : Result A)
        → checks db ≡ r
        → (settle db (r >>= λ a. ok (writes db a))).0 ≡ ok b
        → (a : A) × (checks db ≡ ok a)
          × ((writes db a).0 ≡ b)
          × ((settle db (r >>= λ e. ok (writes db e))).1 ≡ (writes db a).1)
    go (ok a) e q = (a, e, ground arith, refl)
    go (err f) e q = absurd (ground arith)
