-- ===== src/Iam/Token/Lifetime.antt =====
-- How long a token lives, what an answer says of that, and what it permits.
use Prim.Native.String.{String}
use genesis_core.Common.{
  ℕ, ◌+◌, ◌-◌, ◌==◌, ◌≤◌, ◌<◌, ◌&&◌, Bool, false, Option, none, some, List, [], ◌∷◌, select, any,
  ◌≡◌, refl, Option-cases, inl, inr, arith,
}
use genesis_core.Common.Outcome.{Outcome, ok, ◌>>=◌}
use genesis_core.Common.Text.{Text}
use genesis_core.Iam.Model.{Token, User, PermissionView, IamError, Services}
use genesis_core.Iam.Token.{
  Tables, Texts, refresh, check_refresh_expiration, validate_refresh_expiration, delta_seconds,
  has_permission, find_permission, grants, same_project, introspect, Introspection, permissions_of,
}

-- The seconds that an answer gives for a time that has not passed are the time left when that is
-- less than a day, and less than the time left when it is not: a whole number of days is lost.
pub delta_seconds_lem :
    (until now : ℕ)
    → now ≤ until
    → (until < now + 86400 → delta_seconds until now ≡ until - now)
      × (now + 86400 ≤ until → delta_seconds until now < until - now)
unfolding delta_seconds
delta_seconds_lem until now h = (λ short. omega arith, λ long. omega arith)

-- Each refresh at its time, with the scope that it asks for, as `get_token_by_refresh_token` does.
abbrev pub refresh_all : Tables → Texts → List (ℕ × Option Text) → Token → Outcome IamError Token
refresh_all tables texts [] t = ok t
refresh_all tables texts ((now, scope) ∷ rest) t = validate_refresh_expiration now t >>= λ _.
    refresh_all tables texts rest (refresh tables texts now scope t)

-- However often a token is refreshed, the time to refresh it does not move, and it expires no later
-- than before or than its own lifetime behind that time.
pub refresh_all_bound :
    (tables : Tables) (texts : Texts) (rounds : List (ℕ × Option Text)) (t t' : Token) (limit : ℕ)
    → refresh_all tables texts rounds t ≡ ok t'
    → t.expiration_at ≤ limit
    → t.refresh_expiration_at + t.expiration_delta ≤ limit
    → (t'.refresh_expiration_at ≡ t.refresh_expiration_at) × (t'.expiration_at ≤ limit)
unfolding validate_refresh_expiration check_refresh_expiration refresh
refresh_all_bound tables texts [] t t' limit h e r = ground arith
refresh_all_bound tables texts ((now, scope) ∷ rest) t t' limit h e r =
    ground (arith, refresh_all_bound tables texts rest (refresh tables texts now scope t) t' limit)

contains : ℕ → List ℕ → Bool
contains p = any (λ q. q == p)

contains-permissions_of :
    (p user : ℕ) (project : Option ℕ) (t : Token) (vs : List PermissionView)
    → user ≡ t.user
    → any
        (λ (q : ℕ). q == p)
        (permissions_of (
          select (λ (v : PermissionView). (v.user == user) && same_project v.project t.project) vs))
      ≡ any (λ (v : PermissionView). grants t v && (v.permission == p)) vs
unfolding permissions_of
contains-permissions_of p user project t [] same = refl
contains-permissions_of p user project t (v ∷ vs) same =
    ground (arith, contains-permissions_of p user project t vs same)

-- For the user of a token, `has_permission` holds exactly where `introspect` lists the permission
-- of that name.
pub has_permission-introspect :
    (services : Services) (tables : Tables) (code : Option ℕ) (name : String) (me : User)
    (t : Token) (info : Introspection)
    → introspect services tables code me t ≡ ok info
    → me.uuid ≡ t.user
    → has_permission tables name t ≡ elim (find_permission name tables.permissions) [
      | none ↦ false
      | some p ↦ any (λ q. q == p) info.permissions
    ]
unfolding has_permission introspect
has_permission-introspect services tables code name me t info h same =
    elim (Option-cases (find_permission name tables.permissions)) [
      | inl unknown ↦ ground arith
      | inr (p, found) ↦
          let listed = contains-permissions_of p me.uuid t.project t tables.permission_views same in
          let permitted : info.permissions
              ≡ permissions_of (
                  select
                    (λ (v : PermissionView).
                      (v.user == me.uuid) && same_project v.project t.project)
                    tables.permission_views) =
            unfold introspect in ground arith in
          ground arith
    ]
