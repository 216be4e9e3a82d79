-- ===== src/Users/Keyed.antt =====
-- Changes and insertions of accounts: distinct identifiers, and the number of active administrators.
use ai_kaeyris.Prelude.{
  ℕ, suc, ◌≤◌, ◌≡◌, refl, true, false, some, List, [], ◌∷◌, arith, select, ◌==◌,
}
use ai_kaeyris.Table.{first, update_where, insert}
use ai_kaeyris.Models.{User}
use ai_kaeyris.Users.{user_is, is_active_admin, count_active_admins}

-- The primary key.
abbrev pub Keyed : List User → Type 0
Keyed [] = Unit
Keyed (r ∷ rows) = (select (user_is r.id) rows ≡ []) × Keyed rows

pub update_where_absent :
    (uid : ℕ) (f : User → User) (rows : List User)
    → select (user_is uid) rows ≡ []
    → update_where (user_is uid) f rows ≡ rows
unfolding update_where
update_where_absent uid f [] h = refl
update_where_absent uid f (r ∷ rows) h = ground (arith, update_where_absent uid f rows)

-- One account is changed, so at most one administrator is lost.
pub count-update :
    (uid : ℕ) (f : User → User) (rows : List User)
    → Keyed rows
    → count_active_admins rows ≤ suc (count_active_admins (update_where (user_is uid) f rows))
unfolding update_where count_active_admins
count-update uid f [] h = omega arith
count-update uid f (r ∷ rows) h =
    ground (arith, h, count-update uid f rows h.1, update_where_absent uid f rows)

-- None is lost when the account was no active administrator.
pub count-update_other :
    (uid : ℕ) (f : User → User) (rows : List User) (u : User)
    → Keyed rows
    → first (user_is uid) rows ≡ some u
    → is_active_admin u ≡ false
    → count_active_admins rows ≤ count_active_admins (update_where (user_is uid) f rows)
unfolding update_where count_active_admins
count-update_other uid f [] u h e k = omega arith
count-update_other uid f (r ∷ rows) u h e k =
    ground (arith, h, count-update_other uid f rows u h.1, update_where_absent uid f rows)

-- Nor when the change keeps active administrators.
pub count-update_keeps :
    (uid : ℕ) (f : User → User) (rows : List User)
    → ((r : User) → is_active_admin r ≡ true → is_active_admin (f r) ≡ true)
    → count_active_admins rows ≤ count_active_admins (update_where (user_is uid) f rows)
unfolding update_where count_active_admins
count-update_keeps uid f [] h = omega arith
count-update_keeps uid f (r ∷ rows) h = ground (arith, h r, count-update_keeps uid f rows h)

pub absent-update :
    (k uid : ℕ) (f : User → User) (rows : List User)
    → ((r : User) → (f r).id ≡ r.id)
    → select (user_is k) rows ≡ []
    → select (user_is k) (update_where (user_is uid) f rows) ≡ []
unfolding update_where
absent-update k uid f [] same h = refl
absent-update k uid f (r ∷ rows) same h = ground (arith, same r, absent-update k uid f rows same)

pub Keyed-update :
    (uid : ℕ) (f : User → User) (rows : List User)
    → ((r : User) → (f r).id ≡ r.id)
    → Keyed rows
    → Keyed (update_where (user_is uid) f rows)
unfolding update_where
Keyed-update uid f [] same h = tt
Keyed-update uid f (r ∷ rows) same h =
    ground
      (arith, same r, h, Keyed-update uid f rows same h.1, absent-update r.id uid f rows same h.0)

pub absent-insert :
    (k : ℕ) (u : User) (rows : List User)
    → (u.id == k) ≡ false
    → select (user_is k) rows ≡ []
    → select (user_is k) (insert u rows) ≡ []
absent-insert k u [] apart h = ground arith
absent-insert k u (r ∷ rows) apart h = ground (arith, absent-insert k u rows apart)

pub Keyed-insert :
    (u : User) (rows : List User)
    → select (user_is u.id) rows ≡ []
    → Keyed rows
    → Keyed (insert u rows)
Keyed-insert u [] absent h = (refl, tt)
Keyed-insert u (r ∷ rows) absent h =
    ground (arith, h, Keyed-insert u rows, absent-insert r.id u rows)

pub count-insert :
    (u : User) (rows : List User) → count_active_admins rows ≤ count_active_admins (insert u rows)
unfolding count_active_admins
count-insert u [] = omega arith
count-insert u (r ∷ rows) = ground (arith, count-insert u rows)
