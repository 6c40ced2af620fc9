-- ===== src/Server/Enforce/Covered.antt =====
-- Which ids a policy covers for `enforce` of src/server/bastion_server.rs, and which policies
-- `match_sub` of src/server/casbin.rs keeps.
use rustion.Prelude.{
  ◌≡◌, ◌↔◌, sym, ◌⊎◌, inl, inr, Bool, true, ◌||◌, ◌==◌, ==_iff, ok, Bool-cases, List, Memᴰ, keep,
  keep_sound, keep_complete, arith,
}
use rustion.Casbin.Rules.{Uuid, CasbinRule, CasbinRuleGroup, GroupType, subject, RuleGroup}
use rustion.Casbin.Graph.{DiGraph}
use rustion.Casbin.Roles.{RoleManage, new_manage, match_role, match_sub}
use rustion.Casbin.Roles.Match.{IsMember, rows, match_role_iff}

-- The policy names the id itself, or a group that rows connect it with.
abbrev pub Covers : List CasbinRuleGroup → Uuid → Uuid → Type 0
Covers rules start req = (start ≡ req) ⊎ IsMember rules start req

module _ (G : DiGraph RuleGroup) (m : RoleManage G) (r1 r2 r3 : List CasbinRuleGroup)
    (built : new_manage G r1 r2 r3 ≡ ok m) where
  pub covers :
      (t : GroupType) (a b x y : Uuid)
      → (x == y || match_role G m a b t) ≡ true
      → (x ≡ y) ⊎ IsMember (rows t r1 r2 r3) a b
  covers t a b x y h = elim (Bool-cases (x == y)) [
    | inl e ↦ inl ((==_iff x y).0 e)
    | inr e ↦ inr ((match_role_iff G r1 r2 r3 m t a b built).0 (ground arith))
  ]

  pub covered :
      (t : GroupType) (a b x y : Uuid)
      → (x ≡ y) ⊎ IsMember (rows t r1 r2 r3) a b
      → (x == y || match_role G m a b t) ≡ true
  covered t a b x y (inl e) = let p = (==_iff x y).1 e in rw p
  covered t a b x y (inr w) = let p = (match_role_iff G r1 r2 r3 m t a b built).1 w in ground arith

  -- The policies that `match_sub` keeps are those that cover the subject.
  pub kept_iff :
      (sub : Uuid) (pols : List CasbinRule) (pol : CasbinRule)
      → Memᴰ pol (match_sub G m pols sub) ↔ (Memᴰ pol pols × Covers r1 sub pol.v0)
  unfolding match_sub
  kept_iff sub pols pol = (to, from)
    where
      test : CasbinRule → Bool
      test p = p.v0 == sub || match_role G m sub p.v0 subject

      flip : {a b : Uuid} → (a ≡ b) ⊎ IsMember r1 sub pol.v0 → (b ≡ a) ⊎ IsMember r1 sub pol.v0
      flip (inl e) = inl (sym e)
      flip (inr w) = inr w

      to : Memᴰ pol (keep test pols) → Memᴰ pol pols × Covers r1 sub pol.v0
      to i =
          let (j, t) = keep_sound test pols i in (j, flip (covers subject sub pol.v0 pol.v0 sub t))

      from : Memᴰ pol pols × Covers r1 sub pol.v0 → Memᴰ pol (keep test pols)
      from (i, c) = keep_complete test pols i (covered subject sub pol.v0 pol.v0 sub (flip c))
