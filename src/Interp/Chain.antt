-- ===== src/Interp/Chain.antt =====
-- lookup of misc/c/c4-interp.c ends on every dictionary that is a finite chain.
use north_arm.Prelude.{
  ℕ, suc, ◌+◌, ◌^◌, ◌<◌, ◌≡◌, refl, ap, Bool, true, false, some, List, [], ◌∷◌, length, ◌==◌, not,
  flag, if◌then◌else◌,
}
use north_arm.Word64.{word_mod, add64}
use north_arm.Interp.Item.{Colon}
use north_arm.Interp.Listing.{Setting, vm_at, RunsTo, Room}
use north_arm.Interp.Reads.{Defined, look_at}
use north_arm.Interp.Agree.{compare}
use north_arm.Interp.Lookup.{search, lookup_lem}

-- The words from `e` on, each with whether its name agrees with the token at `buf`.
abbrev pub Chain : Setting → List ℕ → (buf len e : ℕ) → List (ℕ × Bool) → Type 0
Chain s xs buf len e [] = e ≡ 0
Chain s xs buf len e ((x, agrees) ∷ words) =
    (e ≡ x)
    × ((e == 0) ≡ false)
    × ((name : ℕ) × (look_at s xs (add64 e 0) ≡ some name)
        × (compare s xs name buf 0 (len + 1) ≡ some agrees))
    × ((link : ℕ) × (look_at s xs (add64 e 24) ≡ some link) × Chain s xs buf len link words)

-- The first word that agrees; 0, if none does.
abbrev pub first : List (ℕ × Bool) → ℕ
first [] = 0
first ((x, agrees) ∷ words) = if agrees then x else first words

search-first :
    (s : Setting) (xs : List ℕ) (buf len e : ℕ) (words : List (ℕ × Bool))
    → Chain s xs buf len e words
    → search s xs (suc (length words)) buf len e ≡ some (first words)
unfolding search
search-first s xs buf len e [] end = rw end refl
search-first s xs buf len e ((x, true) ∷ words)
      (at, live, (name, named, agree), (link, linked, rest)) =
    rw (live, named, agree) (ap some at)
search-first s xs buf len e ((x, false) ∷ words)
      (at, live, (name, named, agree), (link, linked, rest)) =
    rw (live, named, agree, linked) (search-first s xs buf len link words rest)

-- On a dictionary that is a finite chain of words with readable names, lookup of c4-interp.c,
-- laid out in memory with its callees and 40 cells of the stack to spare, ends, with the first
-- word whose name agrees with the token and 1, or with 0 and 0 if there is none.
pub lookup_ends :
    {s : Setting}
    → Defined s Colon.pick
    → s.area.limit < word_mod
    → Defined s Colon.byte_string_equals4
    → Defined s Colon.byte_string_equals3
    → Defined s Colon.dict_entry_name
    → Defined s Colon.dict_entry_next
    → Defined s Colon.lookup
    → (f e len buf : ℕ) (xs : List ℕ) (words : List (ℕ × Bool)) → Room s 40 xs
    → len + 1 < 2 ^ 63
    → Chain s xs buf len e words
    → RunsTo s
        (vm_at s (s.addresses.list_at Colon.lookup) (f ∷ e ∷ len ∷ buf ∷ xs))
        (vm_at s 0 (flag (not (first words == 0)) ∷ first words ∷ xs))
lookup_ends {s} pick small four three name_word next_word d f e len buf xs words room short chain =
    lookup_lem pick small four three name_word next_word d (suc (length words)) f e len buf
      (first words) xs room short (search-first s xs buf len e words chain)
