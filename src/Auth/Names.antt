-- ===== src/Auth/Names.antt =====
-- src/auth.rs: which permissions a token can name.
use threadmark.Auth.Claims.{collect_with, collect_permissions}
use threadmark.Auth.{is_permission, Permission, arm, parse, agent_replay}
use threadmark.Common.{
  String, ◌≡◌, refl, Bool, true, false, Option, none, some, List, [], ◌∷◌, ◌==◌, if◌then◌else◌, any,
}

if_both {ℓ κ} :
    {A : Type ℓ} (P : A → Type κ) (b : Bool) (x y : A) → P x → P y → P (if b then x else y)
if_both P true x y p q = p
if_both P false x y p q = q

abbrev Spares : Option Permission → Type 0
Spares none = Unit
Spares (some p) = is_permission agent_replay p ≡ false

arm-Spares :
    (value name : String) (p : Permission) (o : Option Permission)
    → is_permission agent_replay p ≡ false
    → Spares o
    → Spares (arm value name p o)
unfolding arm
arm-Spares value name p o h k = if_both Spares (value == name) (some p) o h k

-- No name of a permission stands for `AgentReplay`.
parse-Spares : (value : String) → Spares (parse value)
unfolding parse
parse-Spares value = arm-Spares value _ _ _ refl (
    arm-Spares value _ _ _ refl (
      arm-Spares value _ _ _ refl (
        arm-Spares value _ _ _ refl (
          arm-Spares value _ _ _ refl (
            arm-Spares value _ _ _ refl (
              arm-Spares value _ _ _ refl (
                arm-Spares value _ _ _ refl (
                  arm-Spares value _ _ _ refl (
                    arm-Spares value _ _ _ refl (
                      arm-Spares value _ _ _ refl (
                        arm-Spares value _ _ _ refl (
                          arm-Spares value _ _ _ refl (
                            arm-Spares value _ _ _ refl (
                              arm-Spares value _ _ _ refl (
                                arm-Spares value _ _ _ refl (
                                  arm-Spares value _ _ _ refl
                                    (arm-Spares value _ _ _ refl (tt))))))))))))))))))

abbrev pub SparesAll : Option (List Permission) → Type 0
SparesAll none = Unit
SparesAll (some ps) = any (is_permission agent_replay) ps ≡ false

insert-SparesAll :
    (o : Option Permission) (os : Option (List Permission))
    → Spares o
    → SparesAll os
    → SparesAll (collect_with o os)
unfolding any
insert-SparesAll none os h k = tt
insert-SparesAll (some p) none h k = tt
insert-SparesAll (some p) (some ps) h k =
    if_both (λ qs. any (is_permission agent_replay) qs ≡ false) (any (is_permission p) ps) ps
      (p ∷ ps) k (rw (h, k))

pub collect_permissions-SparesAll : (values : List String) → SparesAll (collect_permissions values)
unfolding collect_permissions any
collect_permissions-SparesAll [] = refl
collect_permissions-SparesAll (v ∷ vs) =
    insert-SparesAll (parse v) (collect_permissions vs) (parse-Spares v)
      (collect_permissions-SparesAll vs)
