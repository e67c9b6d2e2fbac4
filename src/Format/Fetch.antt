-- ===== src/Format/Fetch.antt =====
-- src/objects.cc, `object_reader::fetch_object_header`. The backend is a parameter: what a read of a
-- number of bytes from the start of the object gives.
use lsvd_rbd.Base.{
  ℕ, ◌+◌, ◌-◌, ◌*◌, ◌%◌, ◌^◌, ◌≤◌, ◌<◌, ◌≡◌, refl, ap, inl, inr, lt_or_le, ◌&&◌, leb, ltb, ◌==◌,
  leb-true, leb-false, ltb-false, equal, if◌then◌else◌, ◌++◌, length, take, drop, append_assoc,
  length-append, arith,
}
use lsvd_rbd.Format.{Bytes, resize, blit, zeros}
use lsvd_rbd.Format.Bytes.{take_front, take_longer, length-take-min}
use lsvd_rbd.Format.Headers.{CommonHdr, read_common, lsvd_magic}

-- A read of the backend: -ENOENT, another error, or the bytes, whose number is the result.
pub data Fetched : Type 0 where
  missing : Fetched
  failed : Fetched
  got : Bytes → Fetched

-- A result, `std::nullopt`, or an exception.
pub data Outcome (A : Type 0) : Type 0 where
  value : A → Outcome A
  nullopt : Outcome A
  thrown : Outcome A

unfoldable pub and_then : {A B : Type 0} → Outcome A → (A → Outcome B) → Outcome B
and_then (value a) f = f a
and_then nullopt f = nullopt
and_then thrown f = thrown

-- The second read, of the whole header. `reserve` leaves the size of the vector at 4096, but the bytes
-- behind it are there and are read through `data()`.
unfoldable pub fetch_rest : ℕ → Bytes → Fetched → Outcome Bytes
unfolding blit
fetch_rest len buf missing = nullopt
fetch_rest len buf failed = nullopt
fetch_rest len buf (got bs) = if length bs == len then value (blit 0 bs buf) else nullopt

unfoldable pub fetch_first : (ℕ → Fetched) → Fetched → Outcome Bytes
unfolding fetch_rest
fetch_first read missing = nullopt
fetch_first read failed = thrown
fetch_first read (got bs) =
    let buf = resize 4096 bs in
    let h = read_common buf in
    let len = (h.hdr_sectors * 512) % 2 ^ 32 in
    let rest = fetch_rest len buf (read len) in
    if ltb (length bs) 512
    then thrown
    else if (h.magic == lsvd_magic) && (h.version == 1)
    then if leb h.hdr_sectors 8 then value buf else rest
    else nullopt

unfoldable pub fetch_object_header : (ℕ → Fetched) → Outcome Bytes
unfolding fetch_first
fetch_object_header read = fetch_first read (read 4096)

-- The backend gives the first bytes of an object, as many as there are.
unfoldable pub GivesPrefix : (ℕ → Fetched) → Bytes → Type 0
GivesPrefix read obj = (n : ℕ) → read n ≡ got (take n obj)

-- The buffer begins with the whole header.
pub record HeaderThere (hdr : Bytes) (r : Outcome Bytes) : Type 0 where
  pub more : Bytes
  pub there : r ≡ value (hdr ++ more)

module _ (read : ℕ → Fetched) (h : CommonHdr) (front body payload : Bytes)
    (sized : length (front ++ body) ≡ h.hdr_sectors * 512)
    (reads : (rest : Bytes) → read_common (front ++ rest) ≡ h) (front_len : length front ≡ 44)
    (magic : h.magic ≡ lsvd_magic) (version : h.version ≡ 1) (some : 0 < h.hdr_sectors)
    (few : h.hdr_sectors * 512 < 2 ^ 32)
    (gives : GivesPrefix read ((front ++ body) ++ payload)) where
  object : Bytes
  object = (front ++ body) ++ payload

  first_read : Bytes
  unfolding object
  first_read = take 4096 object

  total : length object ≡ h.hdr_sectors * 512 + length payload
  unfolding object
  total = rw (length-append (front ++ body) payload, sized) refl

  length-first_read : 512 ≤ length first_read
  unfolding first_read
  length-first_read = rw (length-take-min 4096 object) (omega (arith, total))

  read_common-first_read : read_common (resize 4096 first_read) ≡ h
  unfolding first_read object resize
  read_common-first_read =
      rw
        (
          append_assoc front body payload,
          take_longer 4096 front (body ++ payload) (omega arith),
          append_assoc front (take (4096 - length front) (body ++ payload))
              (zeros (4096 - length (front ++ take (4096 - length front) (body ++ payload)))),
        )
        (reads (
          take (4096 - length front) (body ++ payload)
          ++ zeros (4096 - length (front ++ take (4096 - length front) (body ++ payload)))))

  rest_there :
      (buf : Bytes)
      → HeaderThere (front ++ body) (
          fetch_rest
            (h.hdr_sectors * 512)
            buf
            (got (take (h.hdr_sectors * 512) ((front ++ body) ++ payload))))
  unfolding fetch_rest blit
  rest_there buf =
      rw
        (
          take_front (h.hdr_sectors * 512) (front ++ body) payload sized,
          equal (length (front ++ body)) (h.hdr_sectors * 512) sized,
        )
        (record { more = drop (0 + length (front ++ body)) buf; there = refl })

  first_there : h.hdr_sectors ≤ 8 → HeaderThere (front ++ body) (value (resize 4096 first_read))
  unfolding first_read object resize
  first_there short =
      let rest : Bytes = take (4096 - length (front ++ body)) payload in
      rw (take_longer 4096 (front ++ body) payload (omega (arith, sized))) (record {
        more = rest ++ zeros (4096 - length ((front ++ body) ++ rest));
        there =
            ap value
              (append_assoc (front ++ body) rest (zeros (4096 - length ((front ++ body) ++ rest))));
      })

  fetch_steps : fetch_object_header read ≡ (
      if leb h.hdr_sectors 8
      then value (resize 4096 first_read)
      else fetch_rest
          ((h.hdr_sectors * 512) % 2 ^ 32)
          (resize 4096 first_read)
          (read ((h.hdr_sectors * 512) % 2 ^ 32)))
  unfolding fetch_object_header fetch_first GivesPrefix first_read object
  fetch_steps =
      rw
        (
          gives 4096,
          ltb-false (length first_read) 512 length-first_read,
          read_common-first_read,
          magic,
          version,
        )
        refl

  -- Of an object that begins with a well-formed header, short or long, the whole header is fetched.
  pub fetch-HeaderThere : HeaderThere (front ++ body) (fetch_object_header read)
  unfolding GivesPrefix
  fetch-HeaderThere = elim (lt_or_le 8 h.hdr_sectors) [
    | inl long ↦
        let exact : (h.hdr_sectors * 512) % 2 ^ 32 ≡ h.hdr_sectors * 512 = omega arith in
        rw (fetch_steps, leb-false h.hdr_sectors 8 long, exact, gives (h.hdr_sectors * 512))
          (rest_there (resize 4096 first_read))
    | inr short ↦ rw (fetch_steps, leb-true h.hdr_sectors 8 short) (first_there short)
  ]
