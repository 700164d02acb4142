-- ===== src/Common.antt =====
-- model/common.go and model/user.go: who may do what, and the entries of a user.
use nezha_diff.Base.{
  ℕ, ◌≡◌, Bool, true, false, Option, none, some, String, List, [], ◌∷◌, arith, nat_beq,
  if◌then◌else◌, Key,
}
use nezha_diff.GoMap.{GoMap, lookup, contains}

abbrev pub role_admin : ℕ
role_admin = 0

abbrev pub role_member : ℕ
role_member = 1

pub record User : Type 0 where
  pub id : ℕ
  pub username : String
  pub password : String
  pub role : ℕ
  pub agent_secret : String
  pub reject_password : Bool

pub record UserInfo : Type 0 where
  pub role : ℕ
  pub agent_secret : String

unfoldable pub is_admin : ℕ → Bool
is_admin role = nat_beq role role_admin

-- CommonInterface, by the two fields of the embedded Common that its methods read.
pub record CommonInterface (E : Type 0) : Type 0 where
  pub get_id : E → ℕ
  pub get_user_id : E → ℕ

module _ {E : Type 0} ⦃c : CommonInterface E⦄ where
  -- `auth` is what the request context holds under CtxKeyAuthorizedUser.
  unfoldable pub has_permission : Option User → E → Bool
  has_permission none x = false
  has_permission (some user) x =
      if nat_beq user.role role_admin then true else nat_beq user.id (c.get_user_id x)

  unfoldable pub find_by_user_id : List E → ℕ → List ℕ
  find_by_user_id [] uid = []
  find_by_user_id (x ∷ xs) uid =
      let rest = find_by_user_id xs uid in
      if nat_beq (c.get_user_id x) uid then c.get_id x ∷ rest else rest

  -- class.CheckPermission of service/singleton/singleton.go: an unknown key is passed over.
  unfoldable pub check_permission {ℓ} :
      {K : Type ℓ} ⦃e : Key K⦄ → Option User → List K → GoMap K E → Bool
  check_permission auth [] list = true
  check_permission auth (k ∷ ks) list =
      let rest = check_permission auth ks list in
      elim (lookup k list) [ none ↦ rest | some x ↦ if has_permission auth x then rest else false ]

  -- What passes the check is owned, or the caller is an administrator.
  pub check_permission_sound {ℓ} :
      {K : Type ℓ} ⦃e : Key K⦄ (auth : Option User) (ks : List K) (list : GoMap K E) (k : K) (x : E)
      → check_permission auth ks list ≡ true
      → contains ks k ≡ true
      → lookup k list ≡ some x
      → has_permission auth x ≡ true
  unfolding check_permission contains
  check_permission_sound auth [] list k x h i l = cc
  check_permission_sound ⦃e⦄ auth (j ∷ ks) list k x h i l =
      ground (arith, check_permission_sound auth ks list k x, e.equal_iff j k)
