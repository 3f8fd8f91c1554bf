-- ===== src/Tests/Storage.antt =====
-- Storage over an association list, with little-endian words and a sum for the CRC.
use rzi.Prelude.{
  ℕ, ◌≡◌, ◌≢◌, ◌+◌, ◌*◌, ◌/◌, ◌%◌, ◌<◌, ◌≤◌, ◌^◌, refl, ap, true, false, List, [], ◌∷◌, ◌++◌, pos,
  Option, some, length, take, codes, eq_bytes, eq_bytes_iff, if◌then◌else◌, arith,
}
use rzi.Err.{err_from_errno}
use rzi.Power.{lock_get, lock_put, initial}
use rzi.Err.{err_from_errno}
use rzi.Power.Balance.{initial-IsBalanced}
use rzi.Storage.{
  Kernel, Config, Storage, valid_component, build_name, init, read, write, encode_record,
  decode_record, write_record, read_record, slash,
}
use rzi.Storage.Names.{HasNoSlash, build_name-injective, build_name_collides}
use rzi.Storage.Values.{IsSettings, SameLocks, read-write, write-SameLocks}
use rzi.Storage.Records.{
  IsBytes, IsByteOrder, decode_record-encode_record, decode_record_sound, read_record-write_record,
}
use rzi.Settings.Persistent.Reads.{IsRecordStore}
use rzi.Tests.Basics.{linux}

abbrev Entries : Type 0
Entries = List (List ℕ × List ℕ)

-- The latest value of a name.
abbrev find : List ℕ → Entries → List ℕ
find name [] = []
find name ((n, v) ∷ es) = if eq_bytes n name then v else find name es

abbrev le16 : ℕ → List ℕ
le16 v = v % 256 ∷ v / 256 % 256 ∷ []

abbrev le32 : ℕ → List ℕ
le32 v = v % 256 ∷ v / 256 % 256 ∷ v / 65536 % 256 ∷ v / 16777216 % 256 ∷ []

abbrev from_le : List ℕ → ℕ
from_le [] = 0
from_le (b ∷ bs) = b + 256 * from_le bs

abbrev sum : List ℕ → ℕ
sum [] = 0
sum (b ∷ bs) = b + sum bs

abbrev pub entries_kernel : Kernel
entries_kernel = record {
  Store = Entries;
  errno = linux;
  settings_subsys_init = λ st. (pos 0, st);
  settings_load_one =
      λ st name size. (pos (length (take size (find name st))), take size (find name st));
  settings_save_one = λ st name bytes. (pos 0, (name, bytes) ∷ st);
  settings_get_val_len = λ st name. pos (length (find name st));
  settings_delete = λ st name. (pos 0, (name, []) ∷ st);
  put_le16 = le16;
  put_le32 = le32;
  get_le16 = from_le;
  get_le32 = from_le;
  crc32_ieee = λ l. sum l % 2 ^ 32;
  crc32_ieee_update = λ c l. (c + sum l) % 2 ^ 32;
}

take_whole : (l : List ℕ) → take (length l) l ≡ l
take_whole [] = refl
take_whole (x ∷ l) = ap (λ (r : List ℕ). x ∷ r) (take_whole l)

find_latest : (name v : List ℕ) (st : Entries) → find name ((name, v) ∷ st) ≡ v
find_latest name v st = rw ((eq_bytes_iff name name).1 refl) refl

pub entries_kernel-IsSettings : IsSettings entries_kernel
entries_kernel-IsSettings = record {
  val_len_saved = λ st name bytes h. rw (find_latest name bytes st) refl;
  load_saved = λ st name bytes h. rw (find_latest name bytes st, take_whole bytes) refl;
  save_nonpositive = λ st name bytes n h. cc;
  init_nonpositive = λ st n h. cc;
}

find_other :
    (name other v : List ℕ) (st : Entries)
    → eq_bytes other name ≡ false
    → find other ((name, v) ∷ st) ≡ find other st
find_other name other v st apart =
    ground (arith, apart, eq_bytes_iff name other, eq_bytes_iff other name)

pub entries_kernel-IsRecordStore : IsRecordStore entries_kernel
entries_kernel-IsRecordStore = record {
  load_kept = λ st name other bytes n apart. rw (find_other name other bytes st apart) refl;
  val_len_kept = λ st name other bytes apart. rw (find_other name other bytes st apart) refl;
  load_length = λ st name n h. ground (arith, h);
}

get_put16 : (v : ℕ) → v < 2 ^ 16 → from_le (le16 v) ≡ v
get_put16 v h = omega arith

get_put32 : (v : ℕ) → v < 2 ^ 32 → from_le (le32 v) ≡ v
get_put32 v h = omega arith

put_get16 : (l : List ℕ) → IsBytes l → length l ≡ 2 → le16 (from_le l) ≡ l
put_get16 [] b h = absurd (omega arith)
put_get16 (x ∷ []) b h = absurd (omega arith)
put_get16 (x ∷ y ∷ []) b h = ground (arith, b)
put_get16 (x ∷ y ∷ z ∷ l) b h = absurd (omega arith)

put_get32 : (l : List ℕ) → IsBytes l → length l ≡ 4 → le32 (from_le l) ≡ l
put_get32 [] b h = absurd (omega arith)
put_get32 (x ∷ []) b h = absurd (omega arith)
put_get32 (x ∷ y ∷ []) b h = absurd (omega arith)
put_get32 (x ∷ y ∷ z ∷ []) b h = absurd (omega arith)
put_get32 (x ∷ y ∷ z ∷ w ∷ []) b h = ground (arith, b)
put_get32 (x ∷ y ∷ z ∷ w ∷ u ∷ l) b h = absurd (omega arith)

get_bound16 : (l : List ℕ) → IsBytes l → length l ≡ 2 → from_le l < 2 ^ 16
get_bound16 [] b h = absurd (omega arith)
get_bound16 (x ∷ []) b h = absurd (omega arith)
get_bound16 (x ∷ y ∷ []) b h = ground (arith, b)
get_bound16 (x ∷ y ∷ z ∷ l) b h = absurd (omega arith)

pub entries_kernel-IsByteOrder : IsByteOrder entries_kernel
entries_kernel-IsByteOrder = record {
  length16 = λ v. refl;
  length32 = λ v. refl;
  get_put16 = get_put16;
  get_put32 = get_put32;
  put_get16 = put_get16;
  put_get32 = put_get32;
  get_bound16 = get_bound16;
  crc_bound = λ c l. omega arith;
}

abbrev pub config : Config
config = record { record_max_size = 512; auto_lock = true }

abbrev pub fresh : Storage entries_kernel config
fresh = record { initialized = false; store = []; power = initial }

-- "lorawan" and "eui".
abbrev namespace : Option (List ℕ)
namespace = some (codes "lorawan")

abbrev key : Option (List ℕ)
key = some (codes "eui")

abbrev value : List ℕ
value = 1 ∷ 2 ∷ 3 ∷ []

abbrev written : Storage entries_kernel config
written = (write entries_kernel config false namespace key (some value) fresh).1

written_ok : write entries_kernel config false namespace key (some value) fresh ≡ (pos 0, written)
unfolding write init build_name valid_component lock_get lock_put initial err_from_errno
written_ok = refl

read-write_example :
    read entries_kernel config false namespace key false (length value) written
    ≡ (pos 0, value, written)
read-write_example =
    read-write entries_kernel config namespace key value fresh written entries_kernel-IsSettings
      written_ok

write-SameLocks_example :
    SameLocks fresh.power
      (write entries_kernel config false namespace key (some value) fresh).1.power
write-SameLocks_example =
    write-SameLocks entries_kernel config false namespace key (some value) fresh initial-IsBalanced

abbrev stored : List ℕ
stored = encode_record entries_kernel config 7 value

stored-IsBytes : IsBytes stored
unfolding encode_record
stored-IsBytes = ground arith

stored_ok : decode_record entries_kernel config stored 16 ≡ (pos 0, 7, value)
stored_ok =
    decode_record-encode_record entries_kernel config entries_kernel-IsByteOrder 7 16 value
      (omega arith) (omega arith) (λ e. cc) (omega arith) (omega arith)

decode_record_sound_example :
    (stored ≡ encode_record entries_kernel config 7 value)
    × (◌≢◌ {A = ℕ} 7 0)
    × (0 < length value)
    × (length value ≤ 16)
decode_record_sound_example =
    decode_record_sound entries_kernel config entries_kernel-IsByteOrder stored 16 7 value
      stored-IsBytes stored_ok

abbrev recorded : Storage entries_kernel config
recorded = (write_record entries_kernel config false namespace key 7 (some value) fresh).1

recorded_ok :
    write_record entries_kernel config false namespace key 7 (some value) fresh ≡ (pos 0, recorded)
unfolding write_record write init build_name valid_component encode_record lock_get lock_put initial
    err_from_errno
recorded_ok = refl

read_record-write_record_example :
    read_record entries_kernel config false namespace key false 16 recorded
    ≡ (pos 0, 7, value, recorded)
read_record-write_record_example =
    read_record-write_record entries_kernel config entries_kernel-IsByteOrder namespace key 7 16
      value fresh recorded entries_kernel-IsSettings (omega arith) (omega arith) (omega arith)
      recorded_ok

eui_built : build_name namespace key ≡ (pos 0, codes "lorawan/eui")
unfolding build_name valid_component
eui_built = refl

lorawan-HasNoSlash : HasNoSlash (codes "lorawan")
lorawan-HasNoSlash = ground arith

build_name-injective_example : (codes "lorawan" ≡ codes "lorawan") × (codes "eui" ≡ codes "eui")
build_name-injective_example =
    build_name-injective (codes "lorawan") (codes "lorawan") (codes "eui") (codes "eui")
      (codes "lorawan/eui") lorawan-HasNoSlash lorawan-HasNoSlash eui_built eui_built

build_name_collides_example :
    (build_name (some (codes "a" ++ (slash ∷ codes "b"))) (some (codes "c"))
      ≡ (pos 0, codes "a/b/c"))
    × (build_name (some (codes "a")) (some (codes "b" ++ (slash ∷ codes "c")))
        ≡ (pos 0, codes "a/b/c"))
build_name_collides_example =
    build_name_collides (codes "a") (codes "b") (codes "c") (unfold valid_component in refl)
      (unfold valid_component in refl) (unfold valid_component in refl) (omega arith)
