-- ===== src/Analyst/Monad/Bind.antt =====
-- What a bind gives, by how its first part ended.
use matata_backend.Common.{◌≡◌, ok, err, arith}
use matata_backend.Models.{Database}
use matata_backend.Analyst.Monad.{Action, Error, ◌>>=◌}

module _ {A B : Type 0} (m : Action A) (f : A → Action B) (db : Database) where
  pub >>=-ok : (a : A) → (m db).0 ≡ ok a → (m >>= f) db ≡ f a (m db).1
  >>=-ok a e = rw (e, ◌>>=◌)

  pub >>=-err : (x : Error) → (m db).0 ≡ err x → (m >>= f) db ≡ (err x, (m db).1)
  >>=-err x e = ground arith
