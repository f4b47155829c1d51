-- ===== src/Common/Options.antt =====
-- Optional values.
use mathlib.Core.Logic.{◌≢◌}
use mathlib.Core.Option.{Option, none, some}
use mathlib.Core.Path.{◌≡◌, sym, ◌∙◌}

pub not_some : {A : Type 0} {a : A} → none ≢ some a
not_some e = cc

pub some_inj : {A : Type 0} {x y : A} → some x ≡ some y → x ≡ y
some_inj e = cc

pub same_some : {A : Type 0} {o : Option A} {x y : A} → o ≡ some x → o ≡ some y → x ≡ y
same_some e e' = some_inj (sym e ∙ e')
