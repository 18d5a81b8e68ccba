-- ===== src/Fat/Store.antt =====
-- `fat16_write_file` of kernel/fs/fat16.c after the deletion, and then `fat16_read_file`.
use flyos.Base.{
  ℕ, ◌<◌, ◌^◌, ◌≡◌, ◌⊎◌, inl, inr, Bool, List, length, true, false, none, some, refl, sym, ◌∙◌,
  arith,
}
use flyos.Fat.Disk.{Volume, Outcome, done}
use flyos.Fat.Names.{parse_83}
use flyos.Fat.Table.{fat_get}
use flyos.Fat.Files.{linked, write_chain, write_linked, fat16_read_file}
use flyos.Fat.Root.{find_root_entry, write_root_dirent}
use flyos.Fat.Entries.{fat_address}
use flyos.Fat.Scanning.{IsName}
use flyos.Fat.Stored.{with_sectors}
use flyos.Fat.Chains.{In, IsChain-same, HasData, HaveRoom, fat_get_same, fat_address≢place, place}
use flyos.Fat.Written.{write_chain-Written}
use flyos.Fat.Create.{IsFull, write_root_dirent_lem}
use flyos.Fat.Keeping.{KeepsRoot, root_address}
use flyos.Fat.Separate.{
  IsVolume, IsVolume-HasRoot, IsVolume-HasData, root_address≢place, fat_address≢root,
}
use flyos.Fat.Sameness.{find_root_entry_same, HoldsChain-same}
use flyos.Fat.Reading.{fat16_read_file-found}
use flyos.Fat.Closing.{Closed}

-- The file with these contents can be read.
abbrev pub ReadsBack : (fuel : ℕ) (name xs : List ℕ) → Volume → Type 0
ReadsBack fuel name xs v = fat16_read_file fuel name (length xs) v ≡ done (some xs)

-- What the writing of data and entry comes to, on a volume with the chain.
abbrev pub Outcomes : (fuel : ℕ) (name xs : List ℕ) → Outcome (Bool × Volume) → Type 0
Outcomes fuel name xs r =
    ((v : Volume) × (r ≡ done (false, v)) × IsFull v)
    ⊎ ((v : Volume) × (r ≡ done (true, v)) × ReadsBack fuel name xs v)

write_linked-step :
    (fuel f p : ℕ) (want xs : List ℕ) (v w : Volume)
    → write_chain fuel f xs v ≡ done (true, w)
    → write_linked fuel want xs (linked f p v) ≡ write_root_dirent want f (length xs) w
unfolding write_linked
write_linked-step fuel f p want xs v w e = rw (e, write_linked) refl

module _ (fuel f : ℕ) (name cs xs : List ℕ) (v : Volume) (vol : IsVolume v)
    (memory : v.has_memory ≡ true) (is_name : IsName (parse_83 name))
    (missing : find_root_entry name v ≡ done none) (closed : Closed f cs v)
    (room : HaveRoom v.sectors_per_cluster cs xs) (small : f < 2 ^ 16) (short : length xs < 2 ^ 31)
    (lt : length cs < fuel) where
  pub write_linked-Outcomes :
      (p : ℕ) → Outcomes fuel name xs (write_linked fuel (parse_83 name) xs (linked f p v))
  write_linked-Outcomes p =
      let (chain, distinct, clusters) = closed in
      let has : HasData v = IsVolume-HasData v vol in
      let (s, runs, only, holds) =
        write_chain-Written fuel f cs xs v has distinct clusters chain room lt in
      let w : Volume = with_sectors s v in
      let vol' : IsVolume w = record {
        healthy = vol.healthy;
        writable = vol.writable;
        copies = vol.copies;
        sized = vol.sized;
        clustered = vol.clustered;
        fat_end = vol.fat_end;
        root_end = vol.root_end;
        fits = vol.fits;
      } in
      let keeps : KeepsRoot v w = (
        s,
        refl,
        λ i h.
            only (root_address i v)
              (λ c j at h'. root_address≢place v vol i c j h (clusters c at) h'),
      ) in
      let still : find_root_entry name w ≡ done none =
        find_root_entry_same name v w (IsVolume-HasRoot v vol) memory keeps ∙ missing in
      let step : write_linked fuel (parse_83 name) xs (linked f p v)
          ≡ write_root_dirent (parse_83 name) f (length xs) w =
        write_linked-step fuel f p (parse_83 name) xs v w runs in
      elim (write_root_dirent_lem name f (length xs) w (IsVolume-HasRoot w vol') memory is_name
        small (omega arith) still) [
          | inl (full_root, e) ↦ inl (w, step ∙ e, full_root)
          | inr (sec, e, found, outside) ↦
              let held : (c j : ℕ)
                  → In c cs
                  → j < v.sectors_per_cluster
                  → sec (place c j v) ≡ s (place c j v) =
                λ c j at h.
                  outside (place c j v)
                    (λ i h' e'. root_address≢place v vol i c j h' (clusters c at) h (sym e')) in
              let same : (d : ℕ) → In d cs → fat_get d (with_sectors sec v) ≡ fat_get d v = λ d at.
                fat_get_same d sec v vol.healthy (
                  outside (fat_address d v) (λ i h. fat_address≢root v vol d i (clusters d at).2 h)
                  ∙ only (fat_address d v) (λ c j at' h.
                    fat_address≢place d c j v has (clusters d at).2 (clusters c at') h)) in
              inr (
                with_sectors sec v,
                step ∙ e,
                fat16_read_file-found fuel f name cs xs (with_sectors sec v) vol.healthy found
                    (IsChain-same f cs v (with_sectors sec v) same chain) room
                    (HoldsChain-same cs xs s sec v held holds) lt,
              )
        ]
