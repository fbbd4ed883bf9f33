-- ===== src/Server/Net/Buffer/Moves.antt =====
-- The bytes of the receive buffer of server/net_server.c: where a line break is found, and what is
-- left after a line was taken out.
use quan_ly_chuong_ga.Prelude.{
  ℕ, zero, suc, ◌+◌, ◌≤◌, ◌≡◌, refl, ap, false, [], ◌∷◌, ◌++◌, none, some, arith, length, take,
  drop, All, ◌==◌,
}
use quan_ly_chuong_ga.CString.{Bytes}
use quan_ly_chuong_ga.Server.Net.Buffer.{find_break, moved, end_word, cut_word, set_zero}

-- Bytes that are no line break.
abbrev Unbroken : Bytes → Type 0
Unbroken s = All (λ c. (c == 10) ≡ false) s

-- Bytes that are no line break and not 0.
abbrev pub Plain : Bytes → Type 0
Plain s = All (λ c. ((c == 0) ≡ false) × ((c == 10) ≡ false)) s

pub Plain-Unbroken : (s : Bytes) → Plain s → Unbroken s
Plain-Unbroken [] h = tt
Plain-Unbroken (c ∷ s) h = (h.0.1, Plain-Unbroken s h.1)

find_break-ends : (w rest : Bytes) → Unbroken w → find_break (w ++ (0 ∷ rest)) ≡ none
unfolding find_break
find_break-ends [] rest h = refl
find_break-ends (c ∷ w) rest h = ground (arith, h, find_break-ends w rest h.1)

pub find_break-concat :
    (w rest : Bytes) → Plain w → find_break rest ≡ none → find_break (w ++ rest) ≡ none
unfolding find_break
find_break-concat [] rest h e = e
find_break-concat (c ∷ w) rest h e = ground (arith, h, find_break-concat w rest h.1 e)

pub find_break-line : (w rest : Bytes) → Plain w → find_break (w ++ (10 ∷ rest)) ≡ some (length w)
unfolding find_break
find_break-line [] rest h = refl
find_break-line (c ∷ w) rest h = ground (arith, h, find_break-line w rest h.1)

-- Behind the front of a text that has been ended there is no line break to be found, either.
find_break-drop-ended :
    (n : ℕ) (w rest : Bytes)
    → Unbroken w
    → n ≤ length w
    → find_break (drop n (w ++ (0 ∷ rest))) ≡ none
find_break-drop-ended zero w rest h l = find_break-ends w rest h
find_break-drop-ended (suc n) [] rest h l = absurd (omega arith)
find_break-drop-ended (suc n) (c ∷ w) rest h l = find_break-drop-ended n w rest h.1 (omega arith)

pub find_break-drop :
    (n : ℕ) (w rest junk : Bytes)
    → Unbroken w
    → Unbroken rest
    → n ≤ length w + suc (length rest)
    → find_break (drop n (w ++ (0 ∷ (rest ++ (0 ∷ junk))))) ≡ none
find_break-drop zero w rest junk h k l = find_break-ends w (rest ++ (0 ∷ junk)) h
find_break-drop (suc n) [] rest junk h k l = find_break-drop-ended n rest junk k (omega arith)
find_break-drop (suc n) (c ∷ w) rest junk h k l = find_break-drop n w rest junk h.1 k (omega arith)

pub take-front : (w rest : Bytes) → take (length w) (w ++ rest) ≡ w
take-front [] rest = refl
take-front (c ∷ w) rest = ap (◌∷◌ c) (take-front w rest)

drop-front : (w rest : Bytes) (c : ℕ) → drop (suc (length w)) (w ++ (c ∷ rest)) ≡ rest
drop-front [] rest c = refl
drop-front (d ∷ w) rest c = drop-front w rest c

pub set_zero-front :
    (w rest : Bytes) (c : ℕ) → set_zero (length w) (w ++ (c ∷ rest)) ≡ w ++ (0 ∷ rest)
unfolding set_zero
set_zero-front [] rest c = refl
set_zero-front (d ∷ w) rest c = ap (◌∷◌ d) (set_zero-front w rest c)

-- Cutting the word changes only bytes of the line, to 0.
abbrev Cut : (Bytes → Bytes) → Bytes → Bytes → Type 0
Cut cut w rest =
    (cut (w ++ (0 ∷ rest)) ≡ cut w ++ (0 ∷ rest)) × (length (cut w) ≡ length w) × Unbroken (cut w)

end_word-Cut : (w rest : Bytes) → Plain w → Cut end_word w rest
unfolding end_word
end_word-Cut [] rest h = (refl, refl, tt)
end_word-Cut (c ∷ w) rest h = ground (arith, h, end_word-Cut w rest h.1, Plain-Unbroken w h.1)

pub cut_word-Cut : (w rest : Bytes) → Plain w → Cut cut_word w rest
unfolding cut_word end_word
cut_word-Cut [] rest h = (refl, refl, tt)
cut_word-Cut (c ∷ w) rest h =
    ground (arith, h, cut_word-Cut w rest h.1, end_word-Cut w rest h.1, Plain-Unbroken w h.1)

-- The array after the line `w` was taken from it, and what stands in front in it then.
unfoldable pub taken : Bytes → Bytes → Bytes → Bytes
unfolding cut_word
taken line rest junk = cut_word line ++ (0 ∷ (rest ++ (0 ∷ junk)))

unfoldable pub left_over : Bytes → Bytes → Bytes → Bytes
unfolding taken
left_over line rest junk = rest ++ drop (length rest) (taken line rest junk)

pub moved_lem :
    (w rest junk : Bytes) (e : ℕ)
    → length w ≡ e
    → let b = w ++ (0 ∷ (rest ++ (0 ∷ junk))) in
      moved (length rest) (suc e) b ≡ rest ++ drop (length rest) b
moved_lem w rest junk e same =
    let b = w ++ (0 ∷ (rest ++ (0 ∷ junk))) in
    let front : take (length rest) (drop (suc (length w)) b) ≡ rest =
      rw (drop-front w (rest ++ (0 ∷ junk)) 0) (take-front rest (0 ∷ junk)) in
    ap (λ t. t ++ drop (length rest) b) (rw same at front)
