-- ===== src/Db.antt =====
-- src/bee/lib/db/db.c: files of records of one size. A buffer is the list of its bytes.
pub mod Calls
pub mod Slots
pub mod Codec
pub mod Reading
pub mod Writing
pub mod Refine
pub mod Cache
pub mod Serving
pub mod Memory
mod Tests
use rubsd.Prelude.{
  ℕ, ◌+◌, ◌-◌, ◌*◌, ◌/◌, Bool, true, false, not, ◌&&◌, ◌||◌, List, ◌++◌, Option, none, some, length,
  take, drop, replicate, ltb, ◌==◌, if◌then◌else◌,
}
use rubsd.Prelude.Int.{ℤ, pos, negsuc, pos_part, is_neg, eq_ℤ, ltb_ℤ, leb_ℤ, ◌+ℤ◌, ◌-ℤ◌}
use rubsd.Base.Env.{M, ◌>>=◌, ◌>>◌, return, System, success, not_found, io_error}
use rubsd.Db.Calls.{Kernel, Lock, shared, exclusive, unlocked}

-- `seqread_t`: what the module's variable `sqr` holds.
pub record Seqread : Type 0 where
  pub fd : ℤ
  pub first : ℤ
  pub recs : ℕ
  pub cache : Option (List ℕ)

-- The value that `sqr` starts with, and that bzero and `sqr.fd = -1` give it again.
abbrev pub no_seqread : Seqread
no_seqread = record { fd = negsuc 0; first = pos 0; recs = 0; cache = none }

-- The records of a cache.
abbrev pub cache_recs : ℕ
cache_recs = 32768

-- `rec * recsize`
abbrev pub place_of : ℕ → ℤ → ℤ
place_of size (pos n) = pos (n * size)
place_of size (negsuc n) = negsuc ((n + 1) * size - 1)

-- A buffer after `b` has been copied to its start.
abbrev pub overlay : List ℕ → List ℕ → List ℕ
overlay b buf = b ++ drop (length b) buf

-- Whether the cache has the record.
unfoldable pub is_hit : Seqread → ℤ → Bool
is_hit q rec = not (q.recs == 0) && leb_ℤ q.first rec && ltb_ℤ rec (q.first +ℤ pos q.recs)

-- A record of the cache.
unfoldable pub cached_record : ℕ → Seqread → List ℕ → ℤ → List ℕ
cached_record size q cache rec = take size (drop (pos_part (rec -ℤ q.first) * size) cache)

module _ {Os : Type 0} (k : Kernel Os) where
  -- A call of the kernel in a function that uses `sqr`.
  abbrev pub lift : {A : Type 0} → M Os A → M (Os × Seqread) A
  lift m (s, q) = let (t, a) = m s in ((t, q), a)

  -- db_open
  unfoldable pub open_base : List ℕ → M Os ℤ
  open_base filespec = k.open_file filespec true

  -- dbs_open
  unfoldable pub open_sequential : List ℕ → M (Os × Seqread) ℤ
  open_sequential filespec (s, q) =
      let (t, fd) = k.open_file filespec false s in
      ((t, if not (is_neg fd) && is_neg q.fd then record no_seqread { fd = fd } else q), fd)

  -- db_close
  unfoldable pub close_base : ℕ → M (Os × Seqread) ℤ
  close_base fd (s, q) =
      let (t, rc) = k.close_file fd s in ((t, if eq_ℤ q.fd (pos fd) then no_seqread else q), rc)

  -- db_reccount
  unfoldable pub count_records : ℕ → ℕ → M Os ℤ
  count_records size fd = do
    st ← k.fstat fd
    return (elim st [ none ↦ negsuc 0 | some n ↦ pos (n / size) ])

  -- The check of the number in db_get and db_put, and what they go on with.
  unfoldable pub with_record : {A : Type 0} → ℕ → ℕ → ℤ → (ℤ → A) → M Os A → M Os A
  unfolding count_records
  with_record size fd rec give_up go = do
    recs ← count_records size fd
    if is_neg recs
        then return (give_up io_error)
        else if leb_ℤ recs rec
        then return (give_up not_found)
        else go

  -- The random read of db_get.
  unfoldable pub random_read : ℕ → ℕ → ℤ → List ℕ → M Os (ℤ × List ℕ)
  random_read size fd rec buf = do
    off ← k.lseek fd (place_of size rec)
    if is_neg off then return (io_error, buf) else (do
      bytes ← k.read fd size
      return (elim bytes [
        | none ↦ (io_error, buf)
        | some b ↦ (if ltb (length b) size then io_error else success, overlay b buf)
      ]))

  -- db_get of a file that is not the cached one.
  unfoldable pub random_get : ℕ → ℕ → ℤ → List ℕ → M Os (ℤ × List ℕ)
  unfolding with_record
  random_get size fd rec buf =
      with_record size fd rec (λ code. (code, buf)) (random_read size fd rec buf)

  -- The cache is filled from the record on, under a shared lock; `buf` gets the first one. A seek
  -- that fails leaves the lock held.
  unfoldable pub fill : ℕ → ℕ → ℤ → List ℕ → List ℕ → M (Os × Seqread) (ℤ × List ℕ)
  fill size fd rec buf cache (s, q) =
      let located = k.lseek fd (place_of size rec) (k.flock fd shared s).0 in
      if is_neg located.1
      then ((located.0, q), (io_error, buf))
      else let loaded = k.read fd (size * cache_recs) located.0 in
        let t = (k.flock fd unlocked loaded.0).0 in
        elim (loaded.1) [
          | none ↦ ((t, q), (io_error, buf))
          | some b ↦
              let full = overlay b cache in
              if ltb (length b) size
              then ((t, record q { cache = some full }), (io_error, buf))
              else (
                (t, record q { cache = some full; first = rec; recs = length b / size }),
                (success, overlay (take size full) buf),
              )
        ]

  -- The cached read of db_get. With no memory for the cache, db_get turns caching off and calls
  -- itself, which is then a random read.
  unfoldable pub cached_read : ℕ → ℕ → ℤ → List ℕ → M (Os × Seqread) (ℤ × List ℕ)
  cached_read size fd rec buf (s, q) = elim (q.cache) [
    | some cache ↦
        if is_hit q rec
        then ((s, q), (success, overlay (cached_record size q cache rec) buf))
        else fill size fd rec buf cache (s, q)
    | none ↦
        let (t, granted) = k.calloc (size * cache_recs) s in
        let zeroes : List ℕ = replicate (size * cache_recs) 0 in
        if granted
        then fill size fd rec buf zeroes (t, record q { cache = some zeroes })
        else lift (random_get size fd rec buf) (t, record q { fd = negsuc 0 })
  ]

  -- db_get
  unfoldable pub get_record : ℕ → ℕ → ℤ → List ℕ → M (Os × Seqread) (ℤ × List ℕ)
  get_record size fd rec buf (s, q) =
      let (t, recs) = count_records size fd s in
      if is_neg recs
      then ((t, q), (io_error, buf))
      else if leb_ℤ recs rec
      then ((t, q), (not_found, buf))
      else if eq_ℤ q.fd (pos fd)
      then cached_read size fd rec buf (t, q)
      else lift (random_read size fd rec buf) (t, q)

  -- db_put
  unfoldable pub put_record : ℕ → ℕ → ℤ → List ℕ → M Os ℤ
  unfolding with_record
  put_record size fd rec bytes =
      with_record size fd rec (λ code. code)
        (do
          off ← k.lseek fd (place_of size rec)
          if is_neg off then return io_error else (do
            written ← k.write fd bytes
            return (if is_neg written || ltb_ℤ written (pos size) then io_error else success)))

  -- db_add
  unfoldable pub add_record : ℕ → ℕ → List ℕ → M Os ℤ
  add_record size fd bytes = do
    recs ← count_records size fd
    if is_neg recs then return io_error else (do
      off ← k.lseek fd (place_of size recs)
      if is_neg off then return io_error else (do
        written ← k.write fd bytes
        return (if is_neg written || ltb_ℤ written (pos size) then io_error else recs)))

  -- db_shlock, db_exlock, db_unlock, db_sync, and the clock
  unfoldable pub system : System Os
  system = record {
    shlock = λ fd. k.flock fd shared;
    exlock = λ fd. k.flock fd exclusive;
    unlock = λ fd. k.flock fd unlocked;
    sync = k.fsync;
    time = k.time;
  }
