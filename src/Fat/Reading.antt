-- ===== src/Fat/Reading.antt =====
-- `fat16_read_file` of kernel/fs/fat16.c after the data and the directory entry are written.
use flyos.Base.{
  ℕ, zero, suc, ◌+◌, ◌-◌, ◌*◌, ◌≤◌, ◌<◌, ◌≡◌, inl, inr, ◌||◌, List, [], ◌∷◌, length, length-drop,
  drop, true, false, true≢false, some, refl, sym, subst, ◌∙◌, ap, ◌==◌, ltb, min, Bool-cases, arith,
}
use flyos.Fat.Disk.{Volume, done}
use flyos.Fat.Names.{parse_83}
use flyos.Fat.Table.{is_data}
use flyos.Fat.Files.{read_found, fat16_read_file}
use flyos.Fat.Root.{find_root_entry}
use flyos.Fat.Contents.{left}
use flyos.Fat.Chains.{IsChain, HoldsChain, HaveRoom}
use flyos.Fat.ReadBack.{read_chain-HoldsChain}
use flyos.Fat.Create.{file_entry}

length-left : (n : ℕ) (xs : List ℕ) → length (left n xs) ≡ length xs - n * 512
unfolding left
length-left zero xs = omega arith
length-left (suc n) [] = omega arith
length-left (suc n) (x ∷ xs) =
    let rest : length (left n (drop 512 (x ∷ xs))) ≡ length (drop 512 (x ∷ xs)) - n * 512 =
      length-left n (drop 512 (x ∷ xs)) in
    let fewer : length (drop 512 (x ∷ xs)) ≡ length (x ∷ xs) - 512 = length-drop 512 (x ∷ xs) in
    omega (arith, rest, fewer)

less_room : (k m l : ℕ) → l ≤ suc k * m → l - m ≤ k * m
less_room k m l le = (let e : suc k * m ≡ k * m + m = grind arith in omega (arith, e))

-- Clusters for all the bytes have room for them.
pub HaveRoom-enough :
    (per : ℕ) (cs xs : List ℕ) → length xs ≤ length cs * (per * 512) → HaveRoom per cs xs
unfolding HaveRoom
HaveRoom-enough per [] [] le = refl
HaveRoom-enough per [] (x ∷ xs) le = absurd (omega arith)
HaveRoom-enough per (c ∷ cs) xs le =
    let fewer : length (left per xs) ≡ length xs - per * 512 = length-left per xs in
    let rest : length xs - per * 512 ≤ length cs * (per * 512) =
      less_room (length cs) (per * 512) (length xs) le in
    HaveRoom-enough per cs (left per xs) (omega (arith, fewer, rest))

-- A chain that starts below 2 is empty, and has no room.
low : (c : ℕ) → c < 2 → is_data c ≡ false
low c lt = ground arith

no_chain :
    (per f : ℕ) (cs xs : List ℕ) (v : Volume)
    → f < 2
    → IsChain f cs v
    → HaveRoom per cs xs
    → xs ≡ []
unfolding IsChain HaveRoom
no_chain per f [] xs v lt chain room = room
no_chain per f (c ∷ cs) xs v lt (at, inside, chain) room =
    absurd (true≢false (sym inside ∙ low c (subst (λ k. k < 2) at lt)))

empty_list : (xs : List ℕ) → length xs ≡ 0 → xs ≡ []
empty_list [] e = refl
empty_list (x ∷ xs) e = absurd (omega arith)

nothing_read :
    (f : ℕ) (cs xs : List ℕ) (v : Volume)
    → ((length xs == 0) || ltb f 2) ≡ true
    → IsChain f cs v
    → HaveRoom v.sectors_per_cluster cs xs
    → xs ≡ []
nothing_read f cs xs v e chain room = elim (Bool-cases (length xs == 0)) [
  | inl zero_length ↦ empty_list xs (ground arith)
  | inr some_length ↦ no_chain v.sectors_per_cluster f cs xs v (ground arith) chain room
]

read_found_lem :
    (fuel f : ℕ) (want cs xs : List ℕ) (v : Volume)
    → ((a : ℕ) → v.read_fails a ≡ false)
    → IsChain f cs v
    → HaveRoom v.sectors_per_cluster cs xs
    → HoldsChain cs xs v
    → length cs < fuel
    → read_found fuel (length xs) (some (file_entry want f (length xs))) v ≡ done (some xs)
unfolding read_found
read_found_lem fuel f want cs xs v healthy chain room h lt =
    let all : min (length xs) (length xs) ≡ length xs = omega arith in
    rw all (elim (Bool-cases ((length xs == 0) || ltb f 2)) [
      | inl none_read ↦
          rw none_read
            (ap (λ ys. done (some ys)) (sym (nothing_read f cs xs v none_read chain room)))
      | inr some_read ↦ rw some_read (read_chain-HoldsChain fuel f cs xs v healthy chain room h lt)
    ])

-- A file whose entry is found, and whose chain holds the bytes, is read as those bytes.
pub fat16_read_file-found :
    (fuel f : ℕ) (name cs xs : List ℕ) (v : Volume)
    → ((a : ℕ) → v.read_fails a ≡ false)
    → find_root_entry name v ≡ done (some (file_entry (parse_83 name) f (length xs)))
    → IsChain f cs v
    → HaveRoom v.sectors_per_cluster cs xs
    → HoldsChain cs xs v
    → length cs < fuel
    → fat16_read_file fuel name (length xs) v ≡ done (some xs)
unfolding fat16_read_file
fat16_read_file-found fuel f name cs xs v healthy found chain room h lt =
    rw (found, fat16_read_file)
      (read_found_lem fuel f (parse_83 name) cs xs v healthy chain room h lt)
