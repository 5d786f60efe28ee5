-- ===== src/Outbound/Request/Listed.antt =====
-- The headers that Connection names, told without splitting it: by the elements that its values join.
use proxy_scope.Prelude.{
  inr, refl, ap, inl, Bool-cases, if◌then◌else◌, ◌||◌, ◌==◌, ◌&&◌, arith, [], not, ◌∙◌, true, ◌++◌,
  false, ◌∷◌, List, Bool, ◌≡◌,
}
use mathlib.Core.List.{◌∷◌}
use proxy_scope.Prelude.Text.{Bytes, codes, equal, trim_space}
use proxy_scope.Http.Header.{Header, values, canonical}
use proxy_scope.Outbound.Request.{
  split_commas, trimmed_names, connection_names, remove_hop_by_hop, hop_by_hop,
}
use proxy_scope.Outbound.Request.Hop.{named, values-remove_hop_by_hop}

abbrev pub free_of_commas : Bytes → Bool
free_of_commas [] = true
free_of_commas (c ∷ s) = not (c == b',') && free_of_commas s

abbrev pub all_free : List Bytes → Bool
all_free [] = true
all_free (w ∷ ws) = free_of_commas w && all_free ws

-- The elements with commas between them; there is one at least.
abbrev pub joined : Bytes → List Bytes → Bytes
joined w [] = w
joined w (x ∷ xs) = w ++ b',' ∷ joined x xs

abbrev pub joined_values : List (Bytes × List Bytes) → List Bytes
joined_values [] = []
joined_values ((w, ws) ∷ es) = joined w ws ∷ joined_values es

abbrev pub all_elements_free : List (Bytes × List Bytes) → Bool
all_elements_free [] = true
all_elements_free ((w, ws) ∷ es) = all_free (w ∷ ws) && all_elements_free es

-- Some element is the name, up to blanks around it and the case of letters; blank elements name nothing.
abbrev pub lists_name : Bytes → List Bytes → Bool
lists_name name [] = false
lists_name name (w ∷ ws) =
    (not (equal (trim_space w) []) && equal (canonical (trim_space w)) (canonical name))
    || lists_name name ws

abbrev pub any_lists_name : Bytes → List (Bytes × List Bytes) → Bool
any_lists_name name [] = false
any_lists_name name ((w, ws) ∷ es) = lists_name name (w ∷ ws) || any_lists_name name es

split_commas-free : (w : Bytes) → free_of_commas w ≡ true → split_commas w ≡ w ∷ []
unfolding split_commas
split_commas-free [] f = refl
split_commas-free (c ∷ w) f =
    let e : (c == b',') ≡ false = ground arith in rw (e, split_commas-free w (ground arith)) refl

split_commas-append :
    (w s : Bytes) → free_of_commas w ≡ true → split_commas (w ++ b',' ∷ s) ≡ w ∷ split_commas s
unfolding split_commas
split_commas-append [] s f = refl
split_commas-append (c ∷ w) s f =
    let e : (c == b',') ≡ false = ground arith in
    rw (e, split_commas-append w s (ground arith)) refl

split_commas-joined :
    (w : Bytes) (ws : List Bytes) → all_free (w ∷ ws) ≡ true → split_commas (joined w ws) ≡ w ∷ ws
split_commas-joined w [] f = split_commas-free w (ground arith)
split_commas-joined w (x ∷ xs) f =
    split_commas-append w (joined x xs) (ground arith)
    ∙ ap (◌∷◌ w) (split_commas-joined x xs (ground arith))

named-append :
    (name : Bytes) (xs ys : List Bytes) → named name (xs ++ ys) ≡ named name xs || named name ys
named-append name [] ys = refl
named-append name (x ∷ xs) ys = ground (arith, named-append name xs ys)

named-trimmed_names :
    (name : Bytes) (ws : List Bytes) → named name (trimmed_names ws) ≡ lists_name name ws
unfolding trimmed_names
named-trimmed_names name [] = refl
named-trimmed_names name (w ∷ ws) = elim (Bool-cases (equal (trim_space w) [])) [
  | inl e ↦ rw (e, trimmed_names) (named-trimmed_names name ws)
  | inr e ↦
      rw (e, trimmed_names)
        (ap (λ z. equal (canonical (trim_space w)) (canonical name) || z)
          (named-trimmed_names name ws))
]

named-connection_names :
    (name : Bytes) (es : List (Bytes × List Bytes))
    → all_elements_free es ≡ true
    → named name (connection_names (joined_values es)) ≡ any_lists_name name es
unfolding connection_names
named-connection_names name [] f = refl
named-connection_names name ((w, ws) ∷ es) f =
    named-append name (trimmed_names (split_commas (joined w ws)))
      (connection_names (joined_values es))
    ∙ ap (λ z. named name (trimmed_names z) || named name (connection_names (joined_values es)))
        (split_commas-joined w ws (ground arith))
    ∙ ap (λ z. z || named name (connection_names (joined_values es)))
        (named-trimmed_names name (w ∷ ws))
    ∙ ap (λ z. lists_name name (w ∷ ws) || z) (named-connection_names name es (ground arith))

-- However the values of Connection are made of elements without commas, joined by commas, the header loses exactly the
-- hop-by-hop headers and the headers that an element names, up to blanks around the name and the case of its letters, and
-- keeps the values of every other header.
pub remove_hop_by_hop_listed :
    (h : Header) (es : List (Bytes × List Bytes)) (name : Bytes)
    → values h (codes "Connection") ≡ joined_values es
    → all_elements_free es ≡ true
    → values (remove_hop_by_hop h) name
      ≡ (if named name hop_by_hop || any_lists_name name es then [] else values h name)
remove_hop_by_hop_listed h es name e f =
    values-remove_hop_by_hop h name
    ∙ ap (λ z. if named name hop_by_hop || z then [] else values h name)
        (ap (λ vs. named name (connection_names vs)) e ∙ named-connection_names name es f)
