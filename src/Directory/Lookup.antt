-- ===== src/Directory/Lookup.antt =====
-- include/PeerDirectory.h: what is looked up after a change of the entries.
use esp_now_midi.Base.{
  ℕ, zero, suc, ◌≡◌, refl, ap, ◌≢◌, true, false, none, some, List, [], ◌∷◌, ◌++◌, map, arith, ◌==◌,
  if◌then◌else◌, Option-cases,
}
use esp_now_midi.Codec.{Announce, DeviceKind, client, dongle, kind_byte}
use esp_now_midi.Transport.Peers.{holds}
use esp_now_midi.Transport.Addresses.{Distinct}
use esp_now_midi.Directory.{
  DirectoryEntry, PeerDirectory, same_name, same_info, find_entry, store_info, get_info, last_entry,
  without_last, take_out,
}

abbrev pub keys : PeerDirectory → List ℕ
keys d = map (λ e. e.packed) d

pub get_info_cons :
    (e : DirectoryEntry) (d : PeerDirectory) (k : ℕ)
    → get_info (e ∷ d) k ≡ (if e.packed == k then some e.info else get_info d k)
unfolding get_info find_entry
get_info_cons e d k = ground (arith, Option-cases (find_entry d k))

pub get_info_nil : (k : ℕ) → get_info [] k ≡ none
unfolding get_info find_entry
get_info_nil k = refl

same_name_eq : (xs ys : List ℕ) → same_name xs ys ≡ true → xs ≡ ys
unfolding same_name
same_name_eq [] [] h = refl
same_name_eq [] (y ∷ ys) h = absurd (ground arith)
same_name_eq (x ∷ xs) [] h = absurd (ground arith)
same_name_eq (x ∷ xs) (y ∷ ys) h = ground (arith, same_name_eq xs ys)

kind_eq : (a b : DeviceKind) → kind_byte a ≡ kind_byte b → a ≡ b
kind_eq client client h = refl
kind_eq client dongle h = absurd (ground arith)
kind_eq dongle client h = absurd (ground arith)
kind_eq dongle dongle h = refl

-- Information that counts as the same is the same.
pub same_info_eq : (a b : Announce) → same_info a b ≡ true → a ≡ b
unfolding same_info
same_info_eq a b h = ground (arith, kind_eq a.kind b.kind, same_name_eq a.name b.name)

found_none : (p i : ℕ) (known : Announce) → find_entry [] p ≢ some (i, known)
unfolding find_entry
found_none p i known found = ground arith

found_first :
    (e : DirectoryEntry) (d : PeerDirectory) (p : ℕ) (known : Announce)
    → find_entry (e ∷ d) p ≡ some (zero, known)
    → e.packed ≡ p
unfolding find_entry
found_first e d p known found = ground (arith, Option-cases (find_entry d p))

found_later :
    (e : DirectoryEntry) (d : PeerDirectory) (p i : ℕ) (known : Announce)
    → find_entry (e ∷ d) p ≡ some (suc i, known)
    → ((e.packed == p) ≡ false) × (find_entry d p ≡ some (i, known))
unfolding find_entry
found_later e d p i known found = ground (arith, Option-cases (find_entry d p))

pub get_info-store_info :
    (d : PeerDirectory) (p i : ℕ) (known info : Announce) (k : ℕ)
    → find_entry d p ≡ some (i, known)
    → get_info (store_info i info d) k ≡ (if p == k then some info else get_info d k)
unfolding store_info
get_info-store_info [] p i known info k found = absurd (found_none p i known found)
get_info-store_info (e ∷ d) p zero known info k found = ground (
  arith,
  found_first e d p known found,
  get_info_cons e d k,
  get_info_cons (record e { info = info }) d k,
)
get_info-store_info (e ∷ d) p (suc i) known info k found =
    let later = found_later e d p i known found in
    ground (
      arith,
      later.0,
      get_info_cons e d k,
      get_info_cons e (store_info i info d) k,
      get_info-store_info d p i known info k later.1,
    )

pub get_info-append :
    (d : PeerDirectory) (e : DirectoryEntry) (k : ℕ)
    → get_info d e.packed ≡ none
    → get_info (d ++ e ∷ []) k ≡ (if e.packed == k then some e.info else get_info d k)
get_info-append [] e k missing = get_info_cons e [] k
get_info-append (f ∷ d) e k missing = ground (
  arith,
  get_info_cons f d e.packed,
  get_info_cons f d k,
  get_info_cons f (d ++ e ∷ []) k,
  get_info-append d e k,
)

last_holds :
    (e : DirectoryEntry) (d : PeerDirectory) → holds (keys (e ∷ d)) (last_entry e d).packed ≡ true
unfolding last_entry holds
last_holds e [] = ground arith
last_holds e (f ∷ d) = ground (arith, last_holds f d)

pub last_away :
    (e f : DirectoryEntry) (d : PeerDirectory)
    → holds (keys (f ∷ d)) e.packed ≡ false
    → (last_entry f d).packed ≢ e.packed
last_away e f d away same =
    absurd (ground (arith, last_holds f d, ap (λ m. holds (keys (f ∷ d)) m) same))

-- The last entry may as well be looked at first, since no other has its address.
pub get_info-last :
    (e : DirectoryEntry) (d : PeerDirectory) (k : ℕ)
    → Distinct (keys (e ∷ d))
    → get_info (last_entry e d ∷ without_last e d) k ≡ get_info (e ∷ d) k
unfolding last_entry without_last holds
get_info-last e [] k distinct = refl
get_info-last e (f ∷ d) k distinct = ground (
  arith,
  distinct.0,
  last_holds f d,
  get_info-last f d k distinct.1,
  get_info_cons (last_entry f d) (without_last f d) k,
  get_info_cons (last_entry f d) (e ∷ without_last f d) k,
  get_info_cons e (without_last f d) k,
  get_info_cons e (f ∷ d) k,
  last_away e f d distinct.0,
)

none_held : (d : PeerDirectory) (k : ℕ) → holds (keys d) k ≡ false → get_info d k ≡ none
unfolding holds
none_held [] k h = get_info_nil k
none_held (e ∷ d) k h = ground (arith, get_info_cons e d k, none_held d k)

pub get_info-take_out :
    (d : PeerDirectory) (p i : ℕ) (known : Announce) (k : ℕ)
    → Distinct (keys d)
    → find_entry d p ≡ some (i, known)
    → get_info (take_out i d) k ≡ (if p == k then none else get_info d k)
unfolding take_out
get_info-take_out [] p i known k distinct found = absurd (found_none p i known found)
get_info-take_out (e ∷ []) p zero known k distinct found =
    ground (arith, found_first e [] p known found, get_info_cons e [] k, get_info_nil k)
get_info-take_out (e ∷ f ∷ d) p zero known k distinct found = ground (
  arith,
  found_first e (f ∷ d) p known found,
  get_info_cons e (f ∷ d) k,
  get_info-last f d k distinct.1,
  none_held (f ∷ d) e.packed distinct.0,
)
get_info-take_out (e ∷ d) p (suc i) known k distinct found =
    let later = found_later e d p i known found in
    ground (
      arith,
      later.0,
      get_info_cons e d k,
      get_info_cons e (take_out i d) k,
      get_info-take_out d p i known k distinct.1 later.1,
    )
