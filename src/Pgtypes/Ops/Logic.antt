-- ===== src/Pgtypes/Ops/Logic.antt =====
-- crates/pgtypes/src/ops.rs: the logic of three values.
pub mod Kleene
use crabgresql.Prelude
use crabgresql.Prelude.{
  ℕ, ◌≡◌, Bool, true, false, ◌||◌, ◌&&◌, String, List, [], ◌∷◌, Option, some, none, Result, ok, err,
  ok_or, ◌>>=◌, ltb, if◌then◌else◌,
}
use crabgresql.Pgtypes.TypeError.{Fault}
use crabgresql.Pgtypes.Datum.{null, bool}
use crabgresql.Pgtypes.Crates.{Crates}
use crabgresql.Pgtypes.Ops.{mismatch, Value}

module _ (C : Crates) where
  unfoldable pub as_bool : Value C → Result Fault (Option Bool)
  as_bool null = ok none
  as_bool (bool b) = ok (some b)
  as_bool _ = err (mismatch "argument of boolean operator must be boolean")

  unfoldable pub and3 : Option Bool → Option Bool → Value C
  and3 (some false) y = bool false
  and3 x (some false) = bool false
  and3 (some true) (some true) = bool true
  and3 _ _ = null

  unfoldable pub or3 : Option Bool → Option Bool → Value C
  or3 (some true) y = bool true
  or3 x (some true) = bool true
  or3 (some false) (some false) = bool false
  or3 _ _ = null

  unfoldable pub not3 : Option Bool → Value C
  not3 (some b) = bool (Prelude.not b)
  not3 none = null

  unfoldable pub and : Value C → Value C → Result Fault (Value C)
  and a b = do x ← as_bool a; y ← as_bool b; ok (and3 x y)

  unfoldable pub or : Value C → Value C → Result Fault (Value C)
  or a b = do x ← as_bool a; y ← as_bool b; ok (or3 x y)

  unfoldable pub not : Value C → Result Fault (Value C)
  not a = do x ← as_bool a; ok (not3 x)
