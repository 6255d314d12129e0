-- ===== src/Updater/Hosts/Gate.antt =====
-- The labels left of the registered domain do not count.
use mathlib.Core.List.{reverse-append}
use eir.Prelude.{◌≡◌, refl, not, some, List, [], ◌∷◌, ◌++◌, arith, ◌==◌}
use eir.Text.Split.{split-append, filter-append}
use eir.Text.{Text, split, is_empty}
use eir.Updater.Hosts.{brand_label, pick_label, host_matches_name, dot}

pick_label-append :
    (xs ys : List Text) (b : Text) → pick_label xs ≡ some b → pick_label (xs ++ ys) ≡ some b
unfolding pick_label
pick_label-append [] ys b h = cc
pick_label-append (x ∷ []) ys b h = cc
pick_label-append (x ∷ y ∷ []) [] b h = h
pick_label-append (x ∷ y ∷ []) (z ∷ ys) b h = ground arith
pick_label-append (x ∷ y ∷ z ∷ xs) ys b h = h

brand_label-subdomain :
    (sub host b : Text) → brand_label host ≡ some b → brand_label (sub ++ (dot ∷ host)) ≡ some b
unfolding brand_label
brand_label-subdomain sub host b h = rw (split-append (λ c. c == dot) sub dot host refl) (
    rw
      (filter-append (λ l. not (is_empty l)) (split (λ c. c == dot) sub)
        (split (λ c. c == dot) host))
      (rw (reverse-append _ _) (pick_label-append _ _ b h)))

-- A host that has a brand label keeps its verdict under every subdomain: the name that a subdomain
-- carries neither makes it the application's vendor nor stops it from being that.
pub host_matches_name-subdomain :
    (sub host b name : Text)
    → brand_label host ≡ some b
    → host_matches_name (sub ++ (dot ∷ host)) name ≡ host_matches_name host name
unfolding host_matches_name
host_matches_name-subdomain sub host b name h = cc (brand_label-subdomain sub host b h)
