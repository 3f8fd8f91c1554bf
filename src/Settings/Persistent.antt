-- ===== src/Settings/Persistent.antt =====
-- The storage service of src/storage/storage_settings.c as what src/lorawan/lorawan_settings.c uses,
-- and the settings on top of it.
pub mod Reads
pub mod Apart
use rzi.Prelude.{ℕ, ◌≡◌, ap, true, false, not, List, pos, some, length, ◌≤◌, arith}
use rzi.Err.{fail}
use rzi.Storage.{Kernel, Config, Storage, read, write, delete, write_record, read_record}
use rzi.Storage.Values.{IsSettings, read-write}
use rzi.Storage.Records.{IsByteOrder, read_record-write_record}
use rzi.Settings.{
  StorageApi, forget, setting_read, setting_write, lorawan_namespace, join_policy_version,
}
use rzi.Settings.Coherence.{IsStorage}
use rzi.Settings.Persistent.Reads.{
  IsRecordStore, pair_of, read-SameAt, read_record-SameAt, read-again, record-again, length-read,
  read-pure, record-pure,
}
use rzi.Settings.Persistent.Apart.{
  write-ready, others-SameAt, write_record-SameAt, write_record-ready,
}
use rzi.Settings.Runs.{Call, started, run_calls, run_calls-IsValid, run_calls-setting_read}
use rzi.Settings.Cache.{IsValid}

-- The calls that lorawan_settings.c makes, from a thread and with buffers that are not NULL.
abbrev pub storage_api : Kernel → Config → StorageApi
storage_api k config = record {
  S = Storage k config;
  read = λ namespace key n s. read k config false (some namespace) (some key) false n s;
  write = λ namespace key v s. write k config false (some namespace) (some key) (some v) s;
  delete = λ namespace key s. delete k config false (some namespace) (some key) s;
  write_record = λ namespace key version v s.
      write_record k config false (some namespace) (some key) version (some v) s;
  read_record =
      λ namespace key n s. read_record k config false (some namespace) (some key) false n s;
}

module _ (k : Kernel) (config : Config) (law : IsSettings k) (apart : IsRecordStore k)
    (order : IsByteOrder k) (limit : config.record_max_size ≤ 2048) where
  -- The storage service, over settings that keep whole records and byte order helpers that are
  -- inverse to one another, and with records of at most 2048 bytes, is what the LoRaWAN settings
  -- rely on: a read that succeeds can be repeated, a value or record that is written is read
  -- back, and a write touches no other key, and nothing at all when it fails.
  pub storage_api-IsStorage : IsStorage (storage_api k config)
  storage_api-IsStorage = record {
    is_ready = λ s. s.initialized;
    read_ready = λ namespace key n s ok. read-again k config law apart namespace key n s ok;
    read_pure = λ namespace key n s up. read-pure k config namespace key n s up;
    read_length = λ namespace key n s ok. length-read k config law apart namespace key n s ok;
    record_ready = λ key n s ok. record-again k config law apart lorawan_namespace key n s ok;
    record_pure = λ key n s up. record-pure k config lorawan_namespace key n s up;
    write_ready = write-ready k config law apart;
    write_stored = λ key v s ok.
        let e = read-write k config (some lorawan_namespace) (some key) v s _ law (pair_of _ ok) in
        (ap (λ r. r.0) e, ap (λ r. r.1) e);
    write_apart = λ key other v n s up e.
        let t = (write k config false (some lorawan_namespace) (some key) (some v) s).1 in
        let up' = write-ready k config law apart key v s (ground (arith, up)) in
        let same = others-SameAt k config law apart key other v s up e in
        let (c, w) = read-SameAt k config lorawan_namespace other n s t up up' same in
        let (c', version, w') =
          read_record-SameAt k config lorawan_namespace other n s t up up' same in
        (c, w, c', version, w');
    record_written_ready = write_record-ready k config law apart;
    record_stored = λ key v s ok.
        let e =
          read_record-write_record k config order (some lorawan_namespace) (some key)
            join_policy_version (length v) v s _ law (omega arith) limit (omega arith)
            (pair_of _ ok) in
        (ap (λ r. r.0) e, ap (λ r. r.1) e, ap (λ r. r.2) e);
    record_apart = λ key other v n s up e.
        let t =
          (write_record k config false (some lorawan_namespace) (some key) join_policy_version
            (some v) s).1 in
        let up' = write_record-ready k config law apart key v s (ground (arith, up)) in
        let same = write_record-SameAt k config law apart key other v s up e in
        let (c, w) = read-SameAt k config lorawan_namespace other n s t up up' same in
        let (c', version, w') =
          read_record-SameAt k config lorawan_namespace other n s t up up' same in
        (c, w, c', version, w');
  }

  -- From a start of the LoRaWAN settings over the storage service, whatever is stored then and
  -- after any sequence of reads and writes, of which any may fail, every cached value that counts
  -- as present is the one that is stored under its own key, and every size suits its kind.
  pub persistent-IsValid :
      (calls : List Call) (s : Storage k config)
      → let a = storage_api k config in
        IsValid a storage_api-IsStorage (run_calls a calls (started a s))
  persistent-IsValid = run_calls-IsValid (storage_api k config) storage_api-IsStorage

  -- From a start of the LoRaWAN settings over the storage service and after any sequence of reads
  -- and writes, when a write succeeds, then after a restart (an empty cache over the same storage)
  -- a read of the same key and size succeeds and finds the value that was written, whether the
  -- write stored it or found it in the cache.
  pub restart-setting_read :
      (calls : List Call) (s : Storage k config) (key v : List ℕ)
      → let a = storage_api k config in
        (setting_write a true key v (run_calls a calls (started a s))).0 ≡ pos 0
        → let c = (setting_write a true key v (run_calls a calls (started a s))).1 in
          let (code, w, found, _) =
            setting_read a true key (length v) (record c { settings = forget a true c.settings }) in
          (code ≡ pos 0) × (w ≡ v) × (found ≡ true)
  restart-setting_read = run_calls-setting_read (storage_api k config) storage_api-IsStorage
