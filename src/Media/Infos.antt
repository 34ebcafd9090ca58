-- ===== src/Media/Infos.antt =====
-- The two forms of stream information, written and read back.
use neolink.Base.{refl, arith, ◌==◌}
use neolink.Base.Words.{IsByte, IsU32, le_bytes}
use neolink.Wire.{Nom, Cookie}
use neolink.Wire.Reads.{
  Reads, bind-Reads, returns, map-Reads, same_bytes, u8-Reads, u16-Reads, u32-Reads, verify-Reads,
}
use neolink.Media.Model.{
  info_v1, info_v2, BcMediaInfoV1, BcMediaInfoV2, magic_header_bcmedia_info_v1,
  magic_header_bcmedia_info_v2,
}
use neolink.Media.Ser.{serialize}
use neolink.Media.De.{bcmedia, is_magic}
use neolink.Media.De

abbrev pub FitsInfoV1 : BcMediaInfoV1 → Type 0
FitsInfoV1 i =
    IsU32 i.video_width
    × IsU32 i.video_height
    × IsByte i.fps
    × IsByte i.start_year
    × IsByte i.start_month
    × IsByte i.start_day
    × IsByte i.start_hour
    × IsByte i.start_min
    × IsByte i.start_seconds
    × IsByte i.end_year
    × IsByte i.end_month
    × IsByte i.end_day
    × IsByte i.end_hour
    × IsByte i.end_min
    × IsByte i.end_seconds

abbrev pub FitsInfoV2 : BcMediaInfoV2 → Type 0
FitsInfoV2 i =
    IsU32 i.video_width
    × IsU32 i.video_height
    × IsByte i.fps
    × IsByte i.start_year
    × IsByte i.start_month
    × IsByte i.start_day
    × IsByte i.start_hour
    × IsByte i.start_min
    × IsByte i.start_seconds
    × IsByte i.end_year
    × IsByte i.end_month
    × IsByte i.end_day
    × IsByte i.end_hour
    × IsByte i.end_min
    × IsByte i.end_seconds

module _ (n : Nom) (c : Cookie) where
  pub info_v1-Reads :
      (i : BcMediaInfoV1) → FitsInfoV1 i → Reads (bcmedia n) (serialize c (info_v1 i)) (info_v1 i)
  unfolding bcmedia serialize De.bcmedia_info_v1 le_bytes
  info_v1-Reads i (w, h, f, h0, h1, h2, h3, h4, h5, h6, h7, h8, h9, h10, h11) =
      same_bytes (simp (c.le_u8_lem, c.le_u32_lem, c.tuple_cons, c.tuple_nil)) (
        bind-Reads _
          (verify-Reads n is_magic (u32-Reads n magic_header_bcmedia_info_v1 (omega arith)) refl)
          (map-Reads info_v1 (
            bind-Reads _ (verify-Reads n (λ x. x == 32) (u32-Reads n 32 (omega arith)) refl) (
              bind-Reads _ (u32-Reads n i.video_width w) (
                bind-Reads _ (u32-Reads n i.video_height h) (
                  bind-Reads _ (u8-Reads n 0 (omega arith)) (
                    bind-Reads _ (u8-Reads n i.fps f) (
                      bind-Reads _ (u8-Reads n i.start_year h0) (
                        bind-Reads _ (u8-Reads n i.start_month h1) (
                          bind-Reads _ (u8-Reads n i.start_day h2) (
                            bind-Reads _ (u8-Reads n i.start_hour h3) (
                              bind-Reads _ (u8-Reads n i.start_min h4) (
                                bind-Reads _ (u8-Reads n i.start_seconds h5) (
                                  bind-Reads _ (u8-Reads n i.end_year h6) (
                                    bind-Reads _ (u8-Reads n i.end_month h7) (
                                      bind-Reads _ (u8-Reads n i.end_day h8) (
                                        bind-Reads _ (u8-Reads n i.end_hour h9) (
                                          bind-Reads _ (u8-Reads n i.end_min h10) (
                                            bind-Reads _ (u8-Reads n i.end_seconds h11) (
                                              bind-Reads _ (u16-Reads n 0 (omega arith))
                                                (returns _)))))))))))))))))))))

  pub info_v2-Reads :
      (i : BcMediaInfoV2) → FitsInfoV2 i → Reads (bcmedia n) (serialize c (info_v2 i)) (info_v2 i)
  unfolding bcmedia serialize De.bcmedia_info_v2 le_bytes
  info_v2-Reads i (w, h, f, h0, h1, h2, h3, h4, h5, h6, h7, h8, h9, h10, h11) =
      same_bytes (simp (c.le_u8_lem, c.le_u32_lem, c.tuple_cons, c.tuple_nil)) (
        bind-Reads _
          (verify-Reads n is_magic (u32-Reads n magic_header_bcmedia_info_v2 (omega arith)) refl)
          (map-Reads info_v2 (
            bind-Reads _ (verify-Reads n (λ x. x == 32) (u32-Reads n 32 (omega arith)) refl) (
              bind-Reads _ (u32-Reads n i.video_width w) (
                bind-Reads _ (u32-Reads n i.video_height h) (
                  bind-Reads _ (u8-Reads n 0 (omega arith)) (
                    bind-Reads _ (u8-Reads n i.fps f) (
                      bind-Reads _ (u8-Reads n i.start_year h0) (
                        bind-Reads _ (u8-Reads n i.start_month h1) (
                          bind-Reads _ (u8-Reads n i.start_day h2) (
                            bind-Reads _ (u8-Reads n i.start_hour h3) (
                              bind-Reads _ (u8-Reads n i.start_min h4) (
                                bind-Reads _ (u8-Reads n i.start_seconds h5) (
                                  bind-Reads _ (u8-Reads n i.end_year h6) (
                                    bind-Reads _ (u8-Reads n i.end_month h7) (
                                      bind-Reads _ (u8-Reads n i.end_day h8) (
                                        bind-Reads _ (u8-Reads n i.end_hour h9) (
                                          bind-Reads _ (u8-Reads n i.end_min h10) (
                                            bind-Reads _ (u8-Reads n i.end_seconds h11) (
                                              bind-Reads _ (u16-Reads n 0 (omega arith))
                                                (returns _)))))))))))))))))))))
