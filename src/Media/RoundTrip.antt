-- ===== src/Media/RoundTrip.antt =====
-- Reading back what was written, with whatever follows it, and asking for more of any initial part.
use neolink.Base.{ℕ, drop-append_length, ◌≡◌, ◌∷◌, ◌++◌, length}
use neolink.Base.Words.{Bytes, IsU16, IsU32}
use neolink.Wire.{Nom, Cookie, done, incomplete}
use neolink.Wire.Reads.{consumed-Reads, Reads}
use neolink.Media.Model.{BcMedia, info_v1, info_v2, iframe, pframe, aac, adpcm}
use neolink.Media.Ser.{serialize}
use neolink.Media.De.{bcmedia, deserialize}
use neolink.Media.Infos.{FitsInfoV1, FitsInfoV2, info_v1-Reads, info_v2-Reads}
use neolink.Media.Frames.{FitsTime, iframe-Reads, pframe-Reads, aac-Reads}

-- The packets that fit the format: words and bytes in range, and payloads whose length is one. An
-- ADPCM packet is not read back by the padding that it is written with.
abbrev pub FitsMedia : BcMedia → Type 0
FitsMedia (info_v1 i) = FitsInfoV1 i
FitsMedia (info_v2 i) = FitsInfoV2 i
FitsMedia (iframe f) = IsU32 f.microseconds × FitsTime f.time × IsU32 (length f.bytes)
FitsMedia (pframe f) = IsU32 f.microseconds × IsU32 (length f.bytes)
FitsMedia (aac a) = IsU16 (length a.bytes)
FitsMedia (adpcm a) = ⊥

module _ (n : Nom) (c : Cookie) where
  bcmedia-Reads : (p : BcMedia) → FitsMedia p → Reads (bcmedia n) (serialize c p) p
  bcmedia-Reads (info_v1 i) h = info_v1-Reads n c i h
  bcmedia-Reads (info_v2 i) h = info_v2-Reads n c i h
  bcmedia-Reads (iframe f) h = iframe-Reads n c f.video_type f.microseconds f.time f.bytes h
  bcmedia-Reads (pframe f) h = pframe-Reads n c f h
  bcmedia-Reads (aac a) h = aac-Reads n c a h
  bcmedia-Reads (adpcm a) h = absurd h

  -- A packet that fits the format is read back from its bytes as it was, and the buffer keeps
  -- exactly what follows them.
  pub media_deserialize-serialize :
      (p : BcMedia) (rest : Bytes)
      → FitsMedia p
      → deserialize n (serialize c p ++ rest) ≡ done (rest, p)
  unfolding deserialize
  media_deserialize-serialize p rest h =
      let r = consumed-Reads n (bcmedia-Reads p h) in
      rw (r.whole rest, drop-append_length (serialize c p) rest)

  -- Of an initial part of such a packet the parser asks for more.
  pub media_deserialize-part :
      (p : BcMedia) (front : Bytes) (b : ℕ) (back : Bytes)
      → FitsMedia p
      → front ++ (b ∷ back) ≡ serialize c p
      → deserialize n front ≡ incomplete
  unfolding deserialize
  media_deserialize-part p front b back h e =
      let r = consumed-Reads n (bcmedia-Reads p h) in rw (r.part front b back e)
