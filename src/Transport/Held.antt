-- ===== src/Transport/Held.antt =====
-- Leases that are out, by the names of those that hold them.
use akastr_agent.Base.{
  ℕ, zero, suc, String, ◌≡◌, ◌≢◌, refl, ap, subst, ◌∙◌, false, some, List, [], ◌∷◌, ◌++◌, Assoc,
  String-discrete, get, delete, All, All_map, All-delete, All-get, Distinct, delete_of_ne, length,
  get_elem?, set, arith,
}
use akastr_agent.Lifecycle.{Lease, operation}

abbrev pub taken : Lease
taken = record { kind = operation; released = false }

-- The commands of a map have leases of operations that are not released, each its own.
abbrev pub Held : List Lease → Assoc String ℕ → Type 0
Held ls m = All (λ e. get_elem? ls e.1 ≡ some taken) m

abbrev pub NotIn : ℕ → Assoc String ℕ → Type 0
NotIn i m = All (λ e. e.1 ≢ i) m

abbrev pub Unique : Assoc String ℕ → Type 0
Unique [] = Unit
Unique (e ∷ m) = NotIn e.1 m × Unique m

get-set_other :
    (ls : List Lease) (i j : ℕ) (l : Lease) → j ≢ i → get_elem? (set ls i l) j ≡ get_elem? ls j
get-set_other [] i j l n = refl
get-set_other (x ∷ xs) zero zero l n = absurd (n refl)
get-set_other (x ∷ xs) zero (suc j) l n = refl
get-set_other (x ∷ xs) (suc i) zero l n = refl
get-set_other (x ∷ xs) (suc i) (suc j) l n = get-set_other xs i j l (λ e. n (ap suc e))

get-append :
    (ls : List Lease) (x l : Lease) (i : ℕ)
    → get_elem? ls i ≡ some l
    → get_elem? (ls ++ x ∷ []) i ≡ some l
get-append [] x l i e = ground arith
get-append (y ∷ ys) x l zero e = e
get-append (y ∷ ys) x l (suc i) e = get-append ys x l i e

pub get-append_last : (ls : List Lease) (x : Lease) → get_elem? (ls ++ x ∷ []) (length ls) ≡ some x
get-append_last [] x = refl
get-append_last (y ∷ ys) x = get-append_last ys x

-- A lease that is handed out is no one's.
pub Held-NotIn : (ls : List Lease) (m : Assoc String ℕ) → Held ls m → NotIn (length ls) m
Held-NotIn ls [] h = tt
Held-NotIn ls (e ∷ m) h =
    (λ q. past ls (subst (λ i. get_elem? ls i ≡ some taken) q h.0), Held-NotIn ls m h.1)
  where
    past : (ls : List Lease) → ¬ (get_elem? ls (length ls) ≡ some taken)
    past [] p = ground arith
    past (x ∷ xs) p = past xs p

pub Held-append :
    (ls : List Lease) (x : Lease) (m : Assoc String ℕ) → Held ls m → Held (ls ++ x ∷ []) m
Held-append ls x m h = All_map _ _ m (λ e. get-append ls x taken e.1) h

pub Held-set :
    (ls : List Lease) (i : ℕ) (l : Lease) (m : Assoc String ℕ)
    → NotIn i m
    → Held ls m
    → Held (set ls i l) m
Held-set ls i l [] n h = tt
Held-set ls i l (e ∷ m) n h = (get-set_other ls i e.1 l n.0 ∙ h.0, Held-set ls i l m n.1 h.1)

pub Unique-delete : (m : Assoc String ℕ) (k : String) → Unique m → Unique (delete m k)
unfolding delete
Unique-delete [] k u = tt
Unique-delete ((j, v) ∷ m) k u =
    ground (arith, Unique-delete m k u.1, All-delete (λ e. e.1 ≢ v) m k u.0)

-- The lease of a key that is deleted is not another's.
pub NotIn-delete :
    (m : Assoc String ℕ) (k : String) (i : ℕ) → Unique m → get m k ≡ some i → NotIn i (delete m k)
unfolding get delete
NotIn-delete [] k i u e = tt
NotIn-delete ((j, v) ∷ m) k i u e =
    ground (arith, NotIn-delete m k i u.1, same, All-get (λ o. o.1 ≢ v) m k i u.0)
  where
    same : v ≡ i → NotIn i (delete m k)
    same q = subst (λ x. NotIn x (delete m k)) q (All-delete (λ o. o.1 ≢ v) m k u.0)

pub length-delete :
    (m : Assoc String ℕ) (k : String) (i : ℕ)
    → Distinct m
    → get m k ≡ some i
    → suc (length (delete m k)) ≡ length m
unfolding get delete
length-delete [] k i d e = ground arith
length-delete ((j, v) ∷ m) k i d e = ground (arith, length-delete m k i d.1, same)
  where
    same : j ≡ k → delete m k ≡ m
    same q = delete_of_ne m k (subst (λ x. All (λ o. o.0 ≢ x) m) q d.0)
