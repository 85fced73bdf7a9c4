-- ===== src/Examples/Paths.antt =====
-- Paths and recipients at concrete inputs.
use bypass.Prelude.{◌≡◌, ◌↔◌, refl, some, ok}
use bypass.Text
use bypass.Text.{Text, Bytes, codes}
use bypass.RelPath.{RelPath, IsSegment, IsValid, new, join, parent}
use bypass.RelPath.Valid.{new_iff}

abbrev pub path : Text → RelPath
path t = record { as_str = t }

abbrev pub web : RelPath
web = path (codes "web")

abbrev pub web_bank : RelPath
web_bank = path (codes "web/bank")

abbrev pub mail : RelPath
mail = path (codes "mail")

web-IsSegment : IsSegment (codes "web")
unfolding Text.contains
web-IsSegment = record {
  nonempty = λ e. cc;
  not_dot = λ e. cc;
  not_dotdot = λ e. cc;
  no_nul = refl;
  no_backslash = refl;
}

bank-IsSegment : IsSegment (codes "bank")
unfolding Text.contains
bank-IsSegment = record {
  nonempty = λ e. cc;
  not_dot = λ e. cc;
  not_dotdot = λ e. cc;
  no_nul = refl;
  no_backslash = refl;
}

mail-IsSegment : IsSegment (codes "mail")
unfolding Text.contains
mail-IsSegment = record {
  nonempty = λ e. cc;
  not_dot = λ e. cc;
  not_dotdot = λ e. cc;
  no_nul = refl;
  no_backslash = refl;
}

pub web-IsValid : IsValid web
unfolding Text.split
web-IsValid = (web-IsSegment, tt)

pub web_bank-IsValid : IsValid web_bank
unfolding Text.split
web_bank-IsValid = (web-IsSegment, (bank-IsSegment, tt))

pub mail-IsValid : IsValid mail
unfolding Text.split
mail-IsValid = (mail-IsSegment, tt)

pub new-web_bank : new (codes "web/bank") ≡ ok web_bank
unfolding new Text.contains Text.split Text.starts_with Text.ends_with
new-web_bank = refl

join-web_bank : join web (codes "bank") ≡ ok web_bank
unfolding join new Text.contains Text.split Text.starts_with Text.ends_with
join-web_bank = refl

parent-web_bank : parent web_bank ≡ some web
unfolding parent Text.rsplit_once
parent-web_bank = refl

new_iff_example :
    (new (codes "web/bank") ≡ ok web_bank)
    ↔ ((web_bank.as_str ≡ codes "web/bank") × IsValid web_bank)
new_iff_example = new_iff (codes "web/bank") web_bank
