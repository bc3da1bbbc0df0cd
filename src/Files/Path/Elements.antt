-- ===== src/Files/Path/Elements.antt =====
-- How a path is taken apart, and that the walk along it ends.
use os.Util.{
  ℕ, zero, suc, ◌+◌, ◌≤◌, ◌<◌, ◌≡◌, refl, sym, ap, ◌∙◌, arith, Bool, true, false, not, ◌&&◌, ◌||◌,
  Bool-cases, inl, inr, ◌⊎◌, Option, none, some, List, [], ◌∷◌, ◌++◌, Run, ok, fault, ◌>>=◌, ◌==◌,
  ==_iff, leb, if◌then◌else◌, get_or, length, length-append,
}
use mathlib.Core.Path.{fun_ext}
use os.Text.{Bytes}
use os.Fat32.Volume.{Fs}
use os.Fat32.Inode.{fat32_inode_dup}
use os.Files.{Vfs}
use os.Files.Path.{
  skip_leading, take_element, skip_slashes, store_name, skepelem, Found, arrive, walk_round,
  namex_loop, start_of, inode_namex,
}

-- Whether there is a zero.
unfoldable pub has_end : Bytes → Bool
has_end [] = false
has_end (c ∷ s) = (c == 0) || has_end s

-- Whether no character is a slash or the end.
unfoldable pub is_element : Bytes → Bool
is_element [] = true
is_element (c ∷ s) = not ((c == 47) || (c == 0)) && is_element s

-- Slashes and dots.
unfoldable pub is_lead : Bytes → Bool
is_lead [] = true
is_lead (c ∷ s) = ((c == 47) || (c == 46)) && is_lead s

unfoldable pub is_slashes : Bytes → Bool
is_slashes [] = true
is_slashes (c ∷ s) = (c == 47) && is_slashes s

-- A path of slashes and dots only, up to its end.
pub record IsBlank (path : Bytes) : Type 0 where
  pub lead : Bytes
  pub behind : Bytes
  pub shape : path ≡ lead ++ (0 ∷ behind)
  pub led : is_lead lead ≡ true

-- A path of slashes and dots, then the element, which does not begin with one of them and goes on to
-- a slash or the end, then all slashes that follow, then the rest.
pub record Splits (path element rest : Bytes) : Type 0 where
  pub lead : Bytes
  pub slashes : Bytes
  pub shape : path ≡ lead ++ (element ++ (slashes ++ rest))
  pub led : is_lead lead ≡ true
  pub some_char : 1 ≤ length element
  pub starts : ((get_or element 0 0 == 47) || (get_or element 0 0 == 46)) ≡ false
  pub is : is_element element ≡ true
  pub stops : ((get_or (slashes ++ rest) 0 1 == 47) || (get_or (slashes ++ rest) 0 1 == 0)) ≡ true
  pub between : is_slashes slashes ≡ true
  pub past : (get_or rest 0 47 == 47) ≡ false
  pub ended : has_end rest ≡ true

Splits-lt : (path element rest : Bytes) → Splits path element rest → length rest < length path
Splits-lt path element rest p = omega (
  arith,
  ap length p.shape,
  length-append p.lead (element ++ (p.slashes ++ rest)),
  length-append element (p.slashes ++ rest),
  length-append p.slashes rest,
  p.some_char,
)

skip_leading_lem :
    (path : Bytes)
    → has_end path ≡ true
    → (lead : Bytes) × (c : ℕ) × (s : Bytes) × (skip_leading path ≡ ok (c ∷ s))
      × (path ≡ lead ++ (c ∷ s))
      × (is_lead lead ≡ true)
      × (((c == 47) || (c == 46)) ≡ false)
      × (has_end (c ∷ s) ≡ true)
unfolding skip_leading has_end is_lead
skip_leading_lem [] h = cc h
skip_leading_lem (c ∷ path) h = elim (Bool-cases ((c == 47) || (c == 46))) [
  | inr other ↦ ([], c, path, rw (other, skip_leading) refl, refl, refl, other, h)
  | inl skip ↦
      let ended : has_end path ≡ true = ground (arith, h, skip) in
      let (lead, d, s, e, shape, led, first, end) = skip_leading_lem path ended in
      (
        c ∷ lead,
        d,
        s,
        rw (skip, skip_leading) e,
        ap (λ t. c ∷ t) shape,
        rw (skip, led) refl,
        first,
        end,
      )
]

take_element_lem :
    (path : Bytes)
    → has_end path ≡ true
    → (element after : Bytes) × (take_element path ≡ ok (element, after))
      × (path ≡ element ++ after)
      × (is_element element ≡ true)
      × (((get_or after 0 1 == 47) || (get_or after 0 1 == 0)) ≡ true)
      × (has_end after ≡ true)
unfolding take_element has_end is_element
take_element_lem [] h = cc h
take_element_lem (c ∷ path) h = elim (Bool-cases ((c == 47) || (c == 0))) [
  | inl end ↦ ([], c ∷ path, rw (end, take_element) refl, refl, refl, end, h)
  | inr letter ↦
      let ended : has_end path ≡ true = ground (arith, h, letter) in
      let (element, after, e, shape, is, stops, end) = take_element_lem path ended in
      (
        c ∷ element,
        after,
        rw (letter, e, take_element) refl,
        ap (λ t. c ∷ t) shape,
        rw (letter, is) refl,
        stops,
        end,
      )
]

skip_slashes_lem :
    (path : Bytes)
    → has_end path ≡ true
    → (slashes rest : Bytes) × (skip_slashes path ≡ ok rest)
      × (path ≡ slashes ++ rest)
      × (is_slashes slashes ≡ true)
      × ((get_or rest 0 47 == 47) ≡ false)
      × (has_end rest ≡ true)
unfolding skip_slashes has_end is_slashes
skip_slashes_lem [] h = cc h
skip_slashes_lem (c ∷ path) h = elim (Bool-cases (c == 47)) [
  | inr other ↦ ([], c ∷ path, rw (other, skip_slashes) refl, refl, refl, other, h)
  | inl slash ↦
      let ended : has_end path ≡ true = ground (arith, h, slash) in
      let (slashes, rest, e, shape, between, past, end) = skip_slashes_lem path ended in
      (
        c ∷ slashes,
        rest,
        rw (slash, skip_slashes) e,
        ap (λ t. c ∷ t) shape,
        rw (slash, between) refl,
        past,
        end,
      )
]

took_more :
    (c : ℕ) (s element after : Bytes)
    → ((c == 47) || (c == 0)) ≡ false
    → take_element s ≡ ok (element, after)
    → take_element (c ∷ s) ≡ ok (c ∷ element, after)
unfolding take_element
took_more c s element after plain took = rw (plain, took, take_element) refl

is_more :
    (c : ℕ) (s : Bytes)
    → ((c == 47) || (c == 0)) ≡ false
    → is_element s ≡ true
    → is_element (c ∷ s) ≡ true
unfolding is_element
is_more c s plain is = rw (plain, is) refl

-- What `skepelem` makes of a path.
abbrev pub Taken : Bytes → Run (Option (Bytes × Bytes)) → Type 0
Taken path r =
    (IsBlank path × (r ≡ ok none))
    ⊎ ((element rest : Bytes) × Splits path element rest
        × (r ≡ (if leb 255 (length element) then fault else ok (some (rest, element ++ 0 ∷ [])))))

took :
    (element after rest : Bytes)
    → skip_slashes after ≡ ok rest
    → let stored : Run (Option (Bytes × Bytes)) =
        store_name element >>= λ name. skip_slashes after >>= λ rest. ok (some (rest, name)) in
      stored ≡ (if leb 255 (length element) then fault else ok (some (rest, element ++ 0 ∷ [])))
took element after rest skipped = elim (Bool-cases (leb 255 (length element))) [
  | inl long ↦ rw long refl
  | inr short ↦ rw (short, skipped) refl
]

-- `skepelem` gives nothing for a path with an end that has only slashes and dots before it. Of any
-- other path with an end it gives the first element, which begins behind the leading slashes and dots
-- and ends before the next slash or the end, and the rest behind the slashes that follow; for an
-- element of 255 characters or more it writes past the buffer.
pub skepelem_lem : (path : Bytes) → has_end path ≡ true → Taken path (skepelem path)
unfolding skepelem has_end
skepelem_lem path h =
    let (lead, c, s, start, shape, led, first, ended) = skip_leading_lem path h in
    elim (Bool-cases (c == 0)) [
      | inl end ↦ inl (
        record {
          lead = lead;
          behind = s;
          shape = shape ∙ ap (λ (d : ℕ). lead ++ (d ∷ s)) ((==_iff c 0).0 end);
          led = led;
        },
        rw (start, skepelem) (rw end refl),
      )
      | inr letter ↦
          let plain : ((c == 47) || (c == 0)) ≡ false = ground (arith, first, letter) in
          let (element, after, took_it, shape', is, stops, ended') =
            take_element_lem s (ground (arith, ended, letter)) in
          let (slashes, rest, skipped, shape'', between, past, ended'') =
            skip_slashes_lem after ended' in
          let run : skepelem path ≡ (
              store_name (c ∷ element) >>= λ name.
              skip_slashes after >>= λ rest. ok (some (rest, name))) =
            rw (start, skepelem)
              (rw letter (
                ap
                  (λ r. r >>= λ (element, after). store_name element >>= λ name.
                    skip_slashes after >>= λ rest. ok (some (rest, name)))
                  (took_more c s element after plain took_it))) in
          inr (
            c ∷ element,
            rest,
            record {
              lead = lead;
              slashes = slashes;
              shape = shape ∙ ap (λ t. lead ++ (c ∷ t)) (shape' ∙ ap (λ t. element ++ t) shape'');
              led = led;
              some_char = omega arith;
              starts = first;
              is = is_more c element plain is;
              stops = sym (ap (λ t. (get_or t 0 1 == 47) || (get_or t 0 1 == 0)) shape'') ∙ stops;
              between = between;
              past = past;
              ended = ended'';
            },
            run ∙ took (c ∷ element) after rest skipped,
          )
    ]

-- The elements of a path, each with the rest behind it.
abbrev pub Parts : Bytes → List (Bytes × Bytes) → Type 0
Parts path [] = IsBlank path
Parts path ((element, rest) ∷ parts) = Splits path element rest × Parts rest parts

-- The walk of `inode_namex` as a recursion on the elements: a round for each.
unfoldable pub walk_along :
    (parent : Bool) → Fs → (ip : ℕ) → List (Bytes × Bytes) → (name : Bytes) → Run Found
walk_along parent fs ip [] name = arrive parent fs ip name
walk_along parent fs ip ((element, rest) ∷ parts) name =
    if leb 255 (length element)
    then fault
    else walk_round parent fs ip rest (element ++ 0 ∷ [])
        (λ fs' ip'. walk_along parent fs' ip' parts (element ++ 0 ∷ []))

-- The walk with more rounds than elements.
abbrev pub WalksAlong : Bytes → List (Bytes × Bytes) → Type 0
WalksAlong path parts =
    (fuel : ℕ) (parent : Bool) (fs : Fs) (ip : ℕ) (name : Bytes)
    → length parts < fuel
    → namex_loop fuel parent fs ip path name ≡ walk_along parent fs ip parts name

blank-WalksAlong : (path : Bytes) → skepelem path ≡ ok none → WalksAlong path []
unfolding namex_loop walk_along
blank-WalksAlong path e zero parent fs ip name lt = absurd (omega arith)
blank-WalksAlong path e (suc fuel) parent fs ip name lt = rw (e, namex_loop) refl

part-WalksAlong :
    (path element rest : Bytes) (parts : List (Bytes × Bytes))
    → skepelem path
      ≡ (if leb 255 (length element) then fault else ok (some (rest, element ++ 0 ∷ [])))
    → WalksAlong rest parts
    → WalksAlong path ((element, rest) ∷ parts)
unfolding namex_loop walk_along
part-WalksAlong path element rest parts e along zero parent fs ip name lt = absurd (omega arith)
part-WalksAlong path element rest parts e along (suc fuel) parent fs ip name lt =
    elim (Bool-cases (leb 255 (length element))) [
      | inl long ↦ rw (e, long, namex_loop) refl
      | inr short ↦
          rw (e, short, namex_loop)
            (ap (walk_round parent fs ip rest (element ++ 0 ∷ [])) (
              fun_ext (λ fs'.
                fun_ext (λ ip'. along fuel parent fs' ip' (element ++ 0 ∷ []) (omega arith)))))
    ]

parts_lem :
    (n : ℕ) (path : Bytes)
    → length path < n
    → has_end path ≡ true
    → (parts : List (Bytes × Bytes)) × Parts path parts
      × (length parts ≤ length path)
      × WalksAlong path parts
parts_lem zero path lt h = absurd (omega arith)
parts_lem (suc n) path lt h = elim (skepelem_lem path h) [
  | inl (blank, e) ↦ ([], blank, omega arith, blank-WalksAlong path e)
  | inr (element, rest, splits, e) ↦
      let shorter = Splits-lt path element rest splits in
      let (parts, are, le, along) = parts_lem n rest (omega (arith, shorter)) splits.ended in
      (
        (element, rest) ∷ parts,
        (splits, are),
        omega (arith, shorter, le),
        part-WalksAlong path element rest parts e along,
      )
]

-- A path with an end has finitely many elements, no more than bytes, and the walk along it makes a
-- round for each of them that it reaches, or faults there if it has 255 characters or more, and then
-- arrives: this is what the loop does from any inode with more rounds than the path has bytes, and
-- what `inode_namex` does from the inode where it starts.
pub inode_namex-walk_along :
    (v : Vfs) (path name : Bytes) (parent : Bool) (fuel : ℕ) (fs : Fs) (ip : ℕ)
    → has_end path ≡ true
    → length path < fuel
    → (parts : List (Bytes × Bytes)) × Parts path parts
      × (length parts ≤ length path)
      × (namex_loop fuel parent fs ip path name ≡ walk_along parent fs ip parts name)
      × (inode_namex v path parent name ≡ (
          start_of v path >>= λ start.
          walk_along parent (fat32_inode_dup v.fs start) start parts name))
unfolding inode_namex
inode_namex-walk_along v path name parent fuel fs ip h enough =
    let (parts, are, le, along) = parts_lem (length path + 1) path (omega arith) h in
    (
      parts,
      are,
      le,
      along fuel parent fs ip name (omega (arith, le)),
      ap (λ (f : ℕ → Run Found). start_of v path >>= f)
          (fun_ext (λ start.
            along (length path + 1) parent (fat32_inode_dup v.fs start) start name
              (omega (arith, le)))),
    )
