-- ===== src/Xml/Items.antt =====
-- Elements that hold plain text, and a list of elements that `parts` takes apart.
use ironbucket.Base.{
  ◌≡◌, refl, sym, ap, ◌∙◌, ℕ, Bool, true, false, not, ◌&&◌, List, [], ◌∷◌, ◌++◌, append_assoc,
  append-nil, arith, All, any, map, drop, ◌==◌, &&-eq_true,
}
use ironbucket.Base.Text.{Text, text_eq, Lacks, Lacks-test}
use ironbucket.Xml.{mark, split_at, parts, line, print_lines}
use ironbucket.Xml.Tokens.{
  Token, plain, tag, render, render-append, IsName, Passes, Lacks-Quiet, Skips, Skips-Quiet,
  split-Quiet, split_at-mark, prepend, prepend-cons,
}
use ironbucket.Xml.Sections.{Section, layout, Fits}

abbrev pub lacks : ℕ → Text → Bool
lacks c w = not (any (λ x. x == c) w)

lacks→Lacks : (c : ℕ) (w : Text) → lacks c w ≡ true → Lacks c w
lacks→Lacks c w h = Lacks-test c w (ground arith)

abbrev pub is_name : Text → Bool
is_name n = lacks b'<' n && (lacks b'>' n && lacks b'/' n)

pub is_name→IsName : (n : Text) → is_name n ≡ true → IsName n
is_name→IsName n h =
    let (a, h') = &&-eq_true _ _ h in
    let (b, c) = &&-eq_true _ _ h' in
    (lacks→Lacks b'<' n a, lacks→Lacks b'>' n b, lacks→Lacks b'/' n c)

not-true : (b : Bool) → not b ≡ true → b ≡ false
not-true b h = ground arith

-- The test for marks that are neither of the two of `n`.
abbrev pub passes : Text → List Token → Bool
passes n [] = true
passes n (plain w ∷ ts) = lacks b'<' w && passes n ts
passes n (tag m ∷ ts) =
    lacks b'<' m
    && (lacks b'>' m && (not (text_eq m n) && (not (text_eq m (b'/' ∷ n)) && passes n ts)))

pub passes→Passes : (n : Text) (ts : List Token) → passes n ts ≡ true → All (Passes n) ts
passes→Passes n [] h = tt
passes→Passes n (plain w ∷ ts) h =
    let (a, b) = &&-eq_true _ _ h in (lacks→Lacks b'<' w a, passes→Passes n ts b)
passes→Passes n (tag m ∷ ts) h =
    let (a, h') = &&-eq_true _ _ h in
    let (b, h'') = &&-eq_true _ _ h' in
    let (c, h''') = &&-eq_true _ _ h'' in
    let (d, e) = &&-eq_true _ _ h''' in
    ((lacks→Lacks b'<' m a, lacks→Lacks b'>' m b, not-true _ c, not-true _ d), passes→Passes n ts e)

-- Elements that hold plain text.
abbrev pub leaves : Text → Text → List Text → Section
leaves indent m ws = record { indent = indent; name = m; contents = map (λ w. plain w ∷ []) ws }

pub leaves-Fits :
    (n indent m : Text) (ws : List Text)
    → lacks b'<' indent ≡ true
    → is_name m ≡ true
    → All (Lacks b'<') ws
    → Fits n (leaves indent m ws)
leaves-Fits n indent m ws h i k = (lacks→Lacks b'<' indent h, is_name→IsName m i, each ws k)
  where
    each :
        (ws : List Text) → All (Lacks b'<') ws → All (All (Passes n)) (map (λ w. plain w ∷ []) ws)
    each [] k = tt
    each (w ∷ ws) k = ((k.0, tt), each ws k.1)

-- What they hold, as text.
pub map-render : (ws : List Text) → map render (map (λ w. plain w ∷ []) ws) ≡ ws
map-render [] = refl
map-render (w ∷ ws) =
    ap (λ r. r ∷ map render (map (λ x. plain x ∷ []) ws)) (append-nil w)
    ∙ ap (λ r. w ∷ r) (map-render ws)

-- How they are printed.
pub print_lines-render :
    (indent m : Text) (ws : List Text) (ss : List Section)
    → render (layout (leaves indent m ws ∷ ss)) ≡ print_lines indent m ws ++ render (layout ss)
unfolding print_lines line
print_lines-render indent m [] ss = refl
print_lines-render indent m (w ∷ ws) ss = simp (print_lines-render indent m ws ss, append_assoc)

-- A list of elements `n`, each with what it holds and the mark that ends it.
module _ {A : Type 0} (n indent : Text) (body : A → List Token) (final : List Token) where
  abbrev pub items : List A → List Token
  items [] = final
  items (a ∷ rest) = plain indent ∷ tag n ∷ (body a ++ items rest)

  -- What stands before the first of them.
  abbrev pub front : List A → List Token
  front [] = final
  front (a ∷ rest) = plain indent ∷ []

  abbrev pub pieces : List A → List Text
  pieces [] = []
  pieces (a ∷ rest) = render (body a ++ front rest) ∷ pieces rest

  split-items :
      (xs : List A)
      → Lacks b'>' n
      → Lacks b'<' indent
      → All (Skips n) final
      → All (λ a. All (Skips n) (body a)) xs
      → split_at (mark n) 0 (render (items xs)) ≡ render (front xs) ∷ pieces xs
  unfolding split_at
  split-items [] i h f k =
      ap (split_at (mark n) 0) (sym (append-nil (render final)))
      ∙ split-Quiet (render final) [] (mark n) (Skips-Quiet n final [] i f)
      ∙ prepend-cons (render final) [] []
      ∙ ap (λ r. r ∷ []) (append-nil (render final))
  split-items (a ∷ rest) i h f k =
      let all = render (body a ++ items rest) in
      let inner : split_at (mark n) 0 all ≡ render (body a ++ front rest) ∷ pieces rest =
        ap (split_at (mark n) 0) (render-append (body a) (items rest))
        ∙ split-Quiet (render (body a)) (render (items rest)) (mark n)
            (Skips-Quiet n (body a) (render (items rest)) i k.0)
        ∙ ap (prepend (render (body a))) (split-items rest i h f k.1)
        ∙ prepend-cons (render (body a)) (render (front rest)) (pieces rest)
        ∙ ap (λ r. r ∷ pieces rest) (sym (render-append (body a) (front rest))) in
      let marked : render (tag n ∷ (body a ++ items rest)) ≡ mark n ++ all =
        sym (ap (λ r. b'<' ∷ r) (append_assoc n (b'>' ∷ []) all)) in
      split-Quiet indent (render (tag n ∷ (body a ++ items rest))) (mark n)
        (Lacks-Quiet indent _ _ h)
      ∙ ap (λ r. prepend indent (split_at (mark n) 0 r)) marked
      ∙ ap (prepend indent) (split_at-mark b'<' (n ++ b'>' ∷ []) all ∙ ap (λ r. [] ∷ r) inner)
      ∙ prepend-cons indent [] (render (body a ++ front rest) ∷ pieces rest)

  -- Splitting at their mark gives the elements, each with what stands before the next one.
  pub parts-items :
      (head : List Token) (xs : List A)
      → Lacks b'>' n
      → Lacks b'<' indent
      → All (Skips n) final
      → All (Skips n) head
      → All (λ a. All (Skips n) (body a)) xs
      → parts n (render (head ++ items xs)) ≡ pieces xs
  unfolding parts
  parts-items head xs i h f g k =
      ap (parts n) (render-append head (items xs))
      ∙ ap (drop 1) (
          split-Quiet (render head) (render (items xs)) (mark n)
            (Skips-Quiet n head (render (items xs)) i g)
          ∙ ap (prepend (render head)) (split-items xs i h f k)
          ∙ prepend-cons (render head) (render (front xs)) (pieces xs))
