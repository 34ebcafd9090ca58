-- ===== src/Media/Frames.antt =====
-- Frames and audio packets, written and read back.
use neolink.Base.{
  ℕ, true, subst, ◌≡◌, refl, arith, [], length, Option, none, some, ◌==◌, replicate,
  length-replicate, append_assoc,
}
use neolink.Base.Words.{Bytes, length-le_bytes, IsU16, IsU32, u16, u32, le_bytes, bytes_eq}
use neolink.Base.Utf8.{from_utf8}
use neolink.Wire.{Nom, Cookie}
use neolink.Wire.Reads.{
  Reads, bind-Reads, returns, map-Reads, same_bytes, u16-Reads, u32-Reads, take-Reads, verify-Reads,
  map_res-Reads,
}
use neolink.Media.Model.{
  iframe, pframe, aac, BcMediaIframe, BcMediaPframe, BcMediaAac, VideoType, h264, h265,
  magic_header_bcmedia_iframe, magic_header_bcmedia_pframe, magic_header_bcmedia_aac,
}
use neolink.Media.Ser.{pad_size, vid_string, serialize, extra_header}
use neolink.Media.De.{bcmedia, is_magic, is_video, of_video, end_iframe, end_pframe, take4}
use neolink.Media.De

-- The time of a keyframe, if it has one.
abbrev pub FitsTime : Option ℕ → Type 0
FitsTime none = Unit {0}
FitsTime (some t) = IsU32 t

module _ (n : Nom) (c : Cookie) where
  video-Reads :
      (t : VideoType) → Reads (n.verify Bytes (take4 n) is_video) (vid_string t) (vid_string t)
  unfolding take4 from_utf8 vid_string bytes_eq
  video-Reads h264 =
      verify-Reads n is_video
        (map_res-Reads n from_utf8 _ (take-Reads n 4 (vid_string h264) refl) refl) refl
  video-Reads h265 =
      verify-Reads n is_video
        (map_res-Reads n from_utf8 _ (take-Reads n 4 (vid_string h265) refl) refl) refl

  of_video-vid_string : (t : VideoType) → of_video (vid_string t) ≡ some t
  unfolding vid_string bytes_eq
  of_video-vid_string h264 = refl
  of_video-vid_string h265 = refl

  -- The data of a packet and its padding.
  pad : Bytes → Bytes
  pad bytes = replicate (pad_size (u32 (length bytes))) 0

  pad-Reads :
      (bytes : Bytes) → Reads (n.take (pad_size (u32 (length bytes)))) (pad bytes) (pad bytes)
  unfolding pad
  pad-Reads bytes = take-Reads n _ _ (length-replicate {A = ℕ} (pad_size (u32 (length bytes))) 0)

  length_eq : (bytes : Bytes) → IsU32 (length bytes) → (u32 (length bytes) == length bytes) ≡ true
  length_eq bytes h = ground arith

  end_iframe-Reads :
      (f : BcMediaIframe)
      → IsU32 (length f.bytes)
      → Reads
          (λ buf.
            end_iframe
              (u32 (length f.bytes) == length f.bytes)
              (of_video (vid_string f.video_type))
              buf
              f.microseconds
              f.time
              f.bytes)
          []
          f
  end_iframe-Reads f h = simp (length_eq f.bytes h, of_video-vid_string f.video_type) (returns f)

  end_pframe-Reads :
      (f : BcMediaPframe)
      → IsU32 (length f.bytes)
      → Reads
          (λ buf.
            end_pframe
              (u32 (length f.bytes) == length f.bytes)
              (of_video (vid_string f.video_type))
              buf
              f.microseconds
              f.bytes)
          []
          f
  end_pframe-Reads f h = simp (length_eq f.bytes h, of_video-vid_string f.video_type) (returns f)

  pub iframe-Reads :
      (video_type : VideoType) (microseconds : ℕ) (time : Option ℕ) (bytes : Bytes)
      → (let f : BcMediaIframe = record {
        video_type = video_type;
        microseconds = microseconds;
        time = time;
        bytes = bytes;
      } in
          IsU32 f.microseconds × FitsTime f.time × IsU32 (length f.bytes)
          → Reads (bcmedia n) (serialize c (iframe f)) (iframe f))
  unfolding bcmedia serialize De.bcmedia_iframe extra_header pad
  iframe-Reads v us none bytes (m, t, l) =
      same_bytes
        (simp (c.le_u32_lem, c.string_lem, c.slice_lem, c.tuple_cons, c.tuple_nil, append_assoc))
        (bind-Reads _
          (verify-Reads n is_magic (u32-Reads n magic_header_bcmedia_iframe (omega arith)) refl)
          (map-Reads iframe (
            bind-Reads _ (video-Reads v) (
              bind-Reads _ (u32-Reads n (u32 (length bytes)) (omega arith)) (
                bind-Reads _ (u32-Reads n 0 (omega arith)) (
                  bind-Reads _ (u32-Reads n us m) (
                    bind-Reads _ (u32-Reads n 0 (omega arith)) (
                      bind-Reads _ (take-Reads n (u32 (length bytes)) bytes (omega arith))
                        (bind-Reads _ (pad-Reads bytes) (end_iframe-Reads _ l))))))))))
  iframe-Reads v us (some time) bytes (m, t, l) =
      same_bytes
        (simp (c.le_u32_lem, c.string_lem, c.slice_lem, c.tuple_cons, c.tuple_nil, append_assoc))
        (bind-Reads _
          (verify-Reads n is_magic (u32-Reads n magic_header_bcmedia_iframe (omega arith)) refl)
          (map-Reads iframe (
            bind-Reads _ (video-Reads v) (
              bind-Reads _ (u32-Reads n (u32 (length bytes)) (omega arith)) (
                bind-Reads _ (u32-Reads n 8 (omega arith)) (
                  bind-Reads _ (u32-Reads n us m) (
                    bind-Reads _ (u32-Reads n 0 (omega arith)) (
                      bind-Reads _ (map-Reads some (u32-Reads n time t)) (
                        bind-Reads _
                          (map-Reads some (take-Reads n 4 (le_bytes 4 0) (length-le_bytes 4 0)))
                          (bind-Reads _ (take-Reads n (u32 (length bytes)) bytes (omega arith))
                            (bind-Reads _ (pad-Reads bytes) (end_iframe-Reads _ l))))))))))))

  pub pframe-Reads :
      (f : BcMediaPframe)
      → IsU32 f.microseconds × IsU32 (length f.bytes)
      → Reads (bcmedia n) (serialize c (pframe f)) (pframe f)
  unfolding bcmedia serialize De.bcmedia_pframe pad
  pframe-Reads f (m, l) =
      same_bytes
        (simp (c.le_u32_lem, c.string_lem, c.slice_lem, c.tuple_cons, c.tuple_nil, append_assoc))
        (bind-Reads _
          (verify-Reads n is_magic (u32-Reads n magic_header_bcmedia_pframe (omega arith)) refl)
          (map-Reads pframe (
            bind-Reads _ (video-Reads f.video_type) (
              bind-Reads _ (u32-Reads n (u32 (length f.bytes)) (omega arith)) (
                bind-Reads _ (u32-Reads n 0 (omega arith)) (
                  bind-Reads _ (u32-Reads n f.microseconds m) (
                    bind-Reads _ (u32-Reads n 0 (omega arith)) (
                      bind-Reads _ (take-Reads n 0 [] refl) (
                        bind-Reads _ (take-Reads n (u32 (length f.bytes)) f.bytes (omega arith))
                          (bind-Reads _ (pad-Reads f.bytes) (end_pframe-Reads f l)))))))))))

  aac_pad-Reads :
      (bytes : Bytes)
      → IsU16 (length bytes)
      → Reads (n.take (pad_size (u16 (length bytes)))) (pad bytes) (pad bytes)
  aac_pad-Reads bytes h =
      let e : u32 (length bytes) ≡ u16 (length bytes) = omega arith in
      subst (λ k. Reads (n.take (pad_size k)) (pad bytes) (pad bytes)) e (pad-Reads bytes)

  pub aac-Reads :
      (a : BcMediaAac) → IsU16 (length a.bytes) → Reads (bcmedia n) (serialize c (aac a)) (aac a)
  unfolding bcmedia serialize De.bcmedia_aac pad
  aac-Reads a h =
      same_bytes
        (simp (c.le_u16_lem, c.le_u32_lem, c.slice_lem, c.tuple_cons, c.tuple_nil, append_assoc))
        (bind-Reads _
          (verify-Reads n is_magic (u32-Reads n magic_header_bcmedia_aac (omega arith)) refl)
          (map-Reads aac (
            bind-Reads _ (u16-Reads n (u16 (length a.bytes)) (omega arith)) (
              bind-Reads _ (u16-Reads n (u16 (length a.bytes)) (omega arith)) (
                bind-Reads _ (take-Reads n (u16 (length a.bytes)) a.bytes (omega arith))
                  (bind-Reads _ (aac_pad-Reads a.bytes h) (returns a)))))))
