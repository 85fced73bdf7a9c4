-- ===== src/Vcs.antt =====
-- The trait `VersionControl` with its null implementation `NoVcs` (crates/bypass-core/src/vcs.rs).
use mathlib.Core.Int.{ℤ}
use bypass.Prelude.{Bool, false, Option, List, [], Outcome, ok}
use bypass.Text.{Text}
use bypass.RelPath.{RelPath}

pub record Commit : Type 0 where
  pub id : Text
  pub summary : Text
  pub author : Option Text
  pub time_unix : ℤ

pub record VersionControl : Type 1 where
  pub State : Type 0
  pub Error : Type 0
  pub init : State → Outcome Error (Unit {0}) × State
  pub is_initialized : State → Outcome Error Bool
  pub commit : State → List RelPath → Text → Outcome Error (Unit {0}) × State
  pub log : State → Option RelPath → Outcome Error (List Commit)

abbrev pub no_vcs : VersionControl
no_vcs = record {
  State = Unit {0};
  Error = ⊥;
  init = λ s. (ok tt, s);
  is_initialized = λ s. ok false;
  commit = λ s paths message. (ok tt, s);
  log = λ s path. ok [];
}
