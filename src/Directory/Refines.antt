-- ===== src/Directory/Refines.antt =====
-- include/PeerDirectory.h: the directory is a map from addresses to information.
use esp_now_midi.Base.{
  ℕ, zero, suc, is_some, ◌≤◌, ◌≡◌, refl, sym, ap, ◌∙◌, inl, inr, false, ◌&&◌, ◌||◌, Option, none,
  some, List, [], ◌∷◌, ◌++◌, arith, ltb, leb, ◌==◌, if◌then◌else◌, Bool-cases, Option-cases, length,
  length-append, length-map,
}
use esp_now_midi.PeerMutes.{max_peers}
use esp_now_midi.Codec.{Announce}
use esp_now_midi.Transport.Peers.{holds}
use esp_now_midi.Transport.Addresses.{Distinct, Distinct-append}
use esp_now_midi.Directory.{
  DirectoryEntry, PeerDirectory, same_info, find_entry, store_info, set_found, set_info, get_info,
  last_entry, without_last, take_out, remove_info, clear_infos,
}
use esp_now_midi.Directory.Lookup.{
  keys, get_info_cons, get_info_nil, same_info_eq, get_info-store_info, get_info-append,
  get_info-last, last_away, get_info-take_out,
}

held : (d : PeerDirectory) (k : ℕ) → is_some (get_info d k) ≡ holds (keys d) k
unfolding holds
held [] k = ap is_some (get_info_nil k)
held (e ∷ d) k = ground (arith, get_info_cons e d k, held d k)

keys-store_info :
    (i : ℕ) (info : Announce) (d : PeerDirectory) → keys (store_info i info d) ≡ keys d
unfolding store_info
keys-store_info i info [] = refl
keys-store_info zero info (e ∷ d) = refl
keys-store_info (suc i) info (e ∷ d) = ap (◌∷◌ e.packed) (keys-store_info i info d)

keys-append :
    (d : PeerDirectory) (e : DirectoryEntry) → keys (d ++ e ∷ []) ≡ keys d ++ e.packed ∷ []
keys-append [] e = refl
keys-append (f ∷ d) e = ap (◌∷◌ f.packed) (keys-append d e)

last_first_held :
    (e : DirectoryEntry) (d : PeerDirectory) (k : ℕ)
    → Distinct (keys (e ∷ d))
    → holds (keys (last_entry e d ∷ without_last e d)) k ≡ holds (keys (e ∷ d)) k
last_first_held e d k distinct =
    sym (held (last_entry e d ∷ without_last e d) k)
    ∙ ap is_some (get_info-last e d k distinct)
    ∙ held (e ∷ d) k

Distinct-last :
    (e : DirectoryEntry) (d : PeerDirectory)
    → Distinct (keys (e ∷ d))
    → Distinct (keys (last_entry e d ∷ without_last e d))
unfolding last_entry without_last holds
Distinct-last e [] distinct = distinct
Distinct-last e (f ∷ d) distinct =
    let rest = Distinct-last f d distinct.1 in
    (
      ground (arith, rest.0, last_away e f d distinct.0),
      (ground (arith, distinct.0, last_first_held f d e.packed distinct.1), rest.1),
    )

take_out_away :
    (i : ℕ) (d : PeerDirectory) (k : ℕ)
    → Distinct (keys d)
    → holds (keys d) k ≡ false
    → holds (keys (take_out i d)) k ≡ false
unfolding take_out holds
take_out_away i [] k distinct away = away
take_out_away zero (e ∷ []) k distinct away = refl
take_out_away zero (e ∷ f ∷ d) k distinct away = last_first_held f d k distinct.1 ∙ ground arith
take_out_away (suc i) (e ∷ d) k distinct away = ground (arith, take_out_away i d k distinct.1)

Distinct-take_out : (i : ℕ) (d : PeerDirectory) → Distinct (keys d) → Distinct (keys (take_out i d))
unfolding take_out
Distinct-take_out i [] distinct = tt
Distinct-take_out zero (e ∷ []) distinct = tt
Distinct-take_out zero (e ∷ f ∷ d) distinct = Distinct-last f d distinct.1
Distinct-take_out (suc i) (e ∷ d) distinct =
    (take_out_away i d e.packed distinct.1 distinct.0, Distinct-take_out i d distinct.1)

-- At most 20 addresses, each once
pub record IsDirectory (d : PeerDirectory) : Type 0 where
  pub small : length (keys d) ≤ max_peers
  pub distinct : Distinct (keys d)

found_info :
    (d : PeerDirectory) (p : ℕ)
    → (found : Option (ℕ × Announce)) → find_entry d p ≡ found
    → get_info d p ≡ elim found [ none ↦ none | some f ↦ some f.1 ]
unfolding get_info
found_info d p none missing = rw (missing, get_info) refl
found_info d p (some f) found = rw (found, get_info) refl

get_info-set_found :
    (d : PeerDirectory) (p : ℕ) (info : Announce) (k : ℕ) (found : Option (ℕ × Announce))
    → find_entry d p ≡ found
    → get_info (set_found found d p info).0 k ≡ (
        if p == k && (ltb (length d) max_peers || is_some (get_info d p))
        then some info
        else get_info d k)
unfolding set_found
get_info-set_found d p info k none missing =
    ground
      (arith, found_info d p none missing, get_info-append d (record { packed = p; info = info }) k)
get_info-set_found d p info k (some (i, known)) found = ground (
  arith,
  found_info d p (some (i, known)) found,
  same_info_eq known info,
  get_info-store_info d p i known info k found,
)

get_info-remove_info :
    (d : PeerDirectory) (p k : ℕ)
    → Distinct (keys d)
    → get_info (remove_info d p) k ≡ (if p == k then none else get_info d k)
unfolding remove_info
get_info-remove_info d p k distinct = elim (Option-cases (find_entry d p)) [
  | inl missing ↦ rw (missing, remove_info) (ground (arith, found_info d p none missing))
  | inr (f, found) ↦ rw (found, remove_info) (get_info-take_out d p f.0 f.1 k distinct found)
]

IsDirectory-set_found :
    (d : PeerDirectory) (p : ℕ) (info : Announce) (found : Option (ℕ × Announce))
    → find_entry d p ≡ found
    → IsDirectory d
    → IsDirectory (set_found found d p info).0
unfolding set_found
IsDirectory-set_found d p info none missing v = elim (Bool-cases (leb max_peers (length d))) [
  | inl full ↦ rw (full, set_found) v
  | inr room ↦
      rw (room, set_found)
        (record {
          small =
              rw (keys-append d (record { packed = p; info = info }))
                (ground (arith, length-append (keys d) (p ∷ []), length-map d (λ e. e.packed)));
          distinct = rw (keys-append d (record { packed = p; info = info })) (
              Distinct-append (keys d) p v.distinct
                (sym (held d p) ∙ ap is_some (found_info d p none missing)));
        })
]
IsDirectory-set_found d p info (some (i, known)) found v =
    elim (Bool-cases (same_info known info)) [
      | inl same ↦ rw (same, set_found) v
      | inr new ↦
          rw (new, set_found)
            (record {
              small = rw (keys-store_info i info d) v.small;
              distinct = rw (keys-store_info i info d) v.distinct;
            })
    ]

length-without_last :
    (e : DirectoryEntry) (d : PeerDirectory) → length (keys (without_last e d)) ≡ length (keys d)
unfolding without_last
length-without_last e [] = refl
length-without_last e (f ∷ d) = ap suc (length-without_last f d)

length-take_out : (i : ℕ) (d : PeerDirectory) → length (keys (take_out i d)) ≤ length (keys d)
unfolding take_out
length-take_out i [] = omega arith
length-take_out zero (e ∷ []) = omega arith
length-take_out zero (e ∷ f ∷ d) = omega (arith, length-without_last f d)
length-take_out (suc i) (e ∷ d) = omega (arith, length-take_out i d)

IsDirectory-remove_info :
    (d : PeerDirectory) (p : ℕ) → IsDirectory d → IsDirectory (remove_info d p)
unfolding remove_info
IsDirectory-remove_info d p v = elim (Option-cases (find_entry d p)) [
  | inl missing ↦ rw (missing, remove_info) v
  | inr (f, found) ↦
      rw (found, remove_info)
        (record {
          small = omega (arith, v.small, length-take_out f.0 d);
          distinct = Distinct-take_out f.0 d v.distinct;
        })
]

-- What the callback and the loop do to the directory
pub data Operation : Type 0 where
  sets : ℕ → Announce → Operation
  removes : ℕ → Operation
  clears : Operation

unfoldable pub after_all : List Operation → PeerDirectory → PeerDirectory
unfolding set_info remove_info clear_infos
after_all [] d = d
after_all (sets p info ∷ ops) d = after_all ops (set_info d p info).0
after_all (removes p ∷ ops) d = after_all ops (remove_info d p)
after_all (clears ∷ ops) d = after_all ops (clear_infos d)

IsDirectory-after_all :
    (ops : List Operation) (d : PeerDirectory) → IsDirectory d → IsDirectory (after_all ops d)
unfolding after_all set_info clear_infos
IsDirectory-after_all [] d v = v
IsDirectory-after_all (sets p info ∷ ops) d v =
    IsDirectory-after_all ops _ (IsDirectory-set_found d p info (find_entry d p) refl v)
IsDirectory-after_all (removes p ∷ ops) d v =
    IsDirectory-after_all ops _ (IsDirectory-remove_info d p v)
IsDirectory-after_all (clears ∷ ops) d v =
    IsDirectory-after_all ops [] (record { small = omega arith; distinct = tt })

-- After any operations on a directory that began empty, it is a map from addresses to what they
-- announced: storing an announcement changes what is looked up for its address only, to that
-- announcement, unless the address is new and 20 are stored; and removing an address takes out that
-- one only, although the last entry moves to its place.
pub after_all-map :
    (ops : List Operation) (p : ℕ) (info : Announce) (k : ℕ)
    → let d = after_all ops [] in
      (get_info (set_info d p info).0 k ≡ (
        if p == k && (ltb (length d) 20 || is_some (get_info d p))
        then some info
        else get_info d k))
      × (get_info (remove_info d p) k ≡ (if p == k then none else get_info d k))
      × (length d ≤ 20)
unfolding set_info
after_all-map ops p info k =
    let d = after_all ops [] in
    let v = IsDirectory-after_all ops [] (record { small = omega arith; distinct = tt }) in
    (
      get_info-set_found d p info k (find_entry d p) refl,
      get_info-remove_info d p k v.distinct,
      omega (arith, v.small, length-map d (λ e. e.packed)),
    )
