-- ===== src/Vfs/Link/Place.antt =====
-- Where `vfs_link_node_vfs` cuts a path: the directory and the name.
use yanix.Common.{
  ℕ, zero, suc, ◌+◌, ◌-◌, ◌<◌, ◌≡◌, ◌≢◌, refl, ap, ◌∙◌, true, false, some, List, [], ◌∷◌, ◌++◌,
  arith, length, get_elem?, ne→==, take, length-append, get_elem?-append_right,
}
use mathlib.Core.List.{append_assoc}
use yanix.Vfs.{String}
use yanix.Vfs.Lookup.{slash}
use yanix.Vfs.Lookup.Names.{NoSlash}
use yanix.Vfs.Link.{is_slash, last_slash, cut_copy}

pub is_slash-NoSlash : (c : String) (i : ℕ) → NoSlash c → is_slash (get_elem? c i) ≡ false
is_slash-NoSlash [] i h = refl
is_slash-NoSlash (x ∷ xs) zero (ne, h) = ne→== x slash ne
is_slash-NoSlash (x ∷ xs) (suc i) (ne, h) = is_slash-NoSlash xs i h

last_slash-at :
    (k : ℕ) (tmp : String) (i : ℕ)
    → is_slash (get_elem? tmp (suc i)) ≡ true
    → ((j : ℕ) → j < k → is_slash (get_elem? tmp (suc i + suc j)) ≡ false)
    → last_slash tmp (suc i + k) ≡ some (suc i)
last_slash-at zero tmp i here clear = let e : suc i + 0 ≡ suc i = omega arith in rw (e, here) refl
last_slash-at (suc k) tmp i here clear =
    let e : suc i + suc k ≡ suc (suc i + k) = omega arith in
    let before = clear k (omega arith) in
    let last : is_slash (get_elem? tmp (suc (suc i + k))) ≡ false = rw e at before in
    rw (e, last) (last_slash-at k tmp i here (λ j lt. clear j (omega arith)))

get_elem?-shift :
    {A : Type 0} → (xs ys : List A) (j : ℕ) → get_elem? (xs ++ ys) (length xs + j) ≡ get_elem? ys j
get_elem?-shift xs ys j =
    let e : length xs + j - length xs ≡ j = omega arith in
    get_elem?-append_right xs ys (length xs + j) (omega arith) ∙ ap (get_elem? ys) e

pub is_slash-behind :
    (name : String) (beyond j : ℕ)
    → NoSlash name
    → beyond ≢ slash
    → is_slash (get_elem? (name ++ beyond ∷ []) j) ≡ false
is_slash-behind [] beyond zero h ne = ne→== beyond slash ne
is_slash-behind [] beyond (suc j) h ne = refl
is_slash-behind (x ∷ xs) beyond zero (no_slash, h) ne = ne→== x slash no_slash
is_slash-behind (x ∷ xs) beyond (suc j) (no_slash, h) ne = is_slash-behind xs beyond j h ne

-- The path of the directory `c ∷ d`, a slash and a name is cut at that slash.
pub last_slash-append :
    (c : ℕ) (d name : String) (beyond : ℕ)
    → NoSlash name
    → beyond ≢ slash
    → last_slash ((c ∷ d) ++ slash ∷ (name ++ beyond ∷ [])) (suc (length d) + suc (length name))
      ≡ some (suc (length d))
last_slash-append c d name beyond clear ne =
    let tail = name ++ beyond ∷ [] in
    let tmp = (c ∷ d) ++ slash ∷ tail in
    let e : length (c ∷ d) + 0 ≡ suc (length d) = omega arith in
    let first = get_elem?-shift (c ∷ d) (slash ∷ tail) 0 in
    last_slash-at (suc (length name)) tmp (length d) (rw (rw e at first) refl) (λ j lt.
      rw (get_elem?-shift (c ∷ d) (slash ∷ tail) (suc j)) (is_slash-behind name beyond j clear ne))

-- The last character of the name is no slash, and the copy is whole.
pub cut_copy-name :
    (c : ℕ) (d name : String) (x beyond : ℕ)
    → NoSlash (x ∷ name)
    → cut_copy ((c ∷ d) ++ slash ∷ x ∷ name) beyond
      ≡ some
          ((c ∷ d) ++ slash ∷ (x ∷ name ++ beyond ∷ []), suc (length d) + suc (suc (length name)))
cut_copy-name c d name x beyond clear =
    let long : length (d ++ slash ∷ x ∷ name) ≡ suc (length d) + suc (length name) =
      omega (arith, length-append d (slash ∷ x ∷ name)) in
    let last = get_elem?-shift (c ∷ d) (slash ∷ x ∷ name) (suc (length name)) in
    let off = is_slash-NoSlash (x ∷ name) (length name) clear in
    rw (long, last, off)
      (let size : suc (suc (length d) + suc (length name))
            ≡ suc (length d) + suc (suc (length name)) =
          omega arith in
        rw (size, append_assoc d (slash ∷ x ∷ name) (beyond ∷ [])) refl)

pub take-exact : {A : Type 0} → (xs ys : List A) → take (length xs) (xs ++ ys) ≡ xs
take-exact [] ys = refl
take-exact (x ∷ xs) ys = ap (λ t. x ∷ t) (take-exact xs ys)
