-- ===== src/Pump/Backlog.antt =====
-- What can be said of a list of frames, and of one frame more at its end.
use neolink.Base.{
  arith, ◌≡◌, refl, sym, ap, inl, inr, Bool, true, false, ◌||◌, List, [], ◌∷◌, ◌++◌, Option, some,
  if◌then◌else◌, Bool-cases,
}
use neolink.Media.Model.{
  VideoType, BcMedia, info_v1, info_v2, iframe, pframe, aac, adpcm, BcMediaIframe,
}
use neolink.Pump.{CameraAudio, Arrivals}

abbrev pub is_keyframe : BcMedia → Bool
is_keyframe (iframe i) = true
is_keyframe _ = false

abbrev pub has_keyframe : List BcMedia → Bool
has_keyframe [] = false
has_keyframe (f ∷ fs) = is_keyframe f || has_keyframe fs

abbrev pub without_infos : List BcMedia → List BcMedia
without_infos [] = []
without_infos (info_v1 i ∷ fs) = without_infos fs
without_infos (info_v2 i ∷ fs) = without_infos fs
without_infos (iframe i ∷ fs) = iframe i ∷ without_infos fs
without_infos (pframe i ∷ fs) = pframe i ∷ without_infos fs
without_infos (aac a ∷ fs) = aac a ∷ without_infos fs
without_infos (adpcm a ∷ fs) = adpcm a ∷ without_infos fs

-- The newest keyframe and what came after it, stream information left out.
abbrev pub since_keyframe : List BcMedia → List BcMedia
since_keyframe [] = []
since_keyframe (f ∷ fs) =
    if has_keyframe fs
    then since_keyframe fs
    else if is_keyframe f
    then f ∷ without_infos fs
    else []

abbrev pub first_audio : List BcMedia → Option CameraAudio
first_audio [] = Option.none
first_audio (aac a ∷ fs) = some CameraAudio.aac
first_audio (adpcm a ∷ fs) = some CameraAudio.adpcm
first_audio (_ ∷ fs) = first_audio fs

abbrev pub type_of : BcMedia → Option VideoType
type_of (iframe i) = some i.video_type
type_of (pframe i) = some i.video_type
type_of _ = Option.none

abbrev pub or_else {ℓ} : {A : Type ℓ} → Option A → Option A → Option A
or_else Option.none o = o
or_else (some a) o = some a

-- The type that the last frame of video has.
abbrev pub newest_type : List BcMedia → Option VideoType
newest_type [] = Option.none
newest_type (f ∷ fs) = or_else (newest_type fs) (type_of f)

abbrev pub frames_of : Arrivals → List BcMedia
frames_of [] = []
frames_of ((t, Option.none) ∷ rest) = frames_of rest
frames_of ((t, some f) ∷ rest) = f ∷ frames_of rest

pub has_keyframe-append_key :
    (fs : List BcMedia) (i : BcMediaIframe) → has_keyframe (fs ++ (iframe i ∷ [])) ≡ true
has_keyframe-append_key [] i = refl
has_keyframe-append_key (g ∷ fs) i = rw (has_keyframe-append_key fs i) (ground arith)

pub has_keyframe-append_other :
    (fs : List BcMedia) (f : BcMedia)
    → is_keyframe f ≡ false
    → has_keyframe (fs ++ (f ∷ [])) ≡ has_keyframe fs
has_keyframe-append_other [] f h = ground arith
has_keyframe-append_other (g ∷ fs) f h = rw (has_keyframe-append_other fs f h) refl

pub since_keyframe-append_key :
    (fs : List BcMedia) (i : BcMediaIframe) → since_keyframe (fs ++ (iframe i ∷ [])) ≡ iframe i ∷ []
since_keyframe-append_key [] i = refl
since_keyframe-append_key (g ∷ fs) i =
    rw (has_keyframe-append_key fs i) (since_keyframe-append_key fs i)

abbrev pub keep : List BcMedia → List BcMedia → List BcMedia
keep [] ys = []
keep (x ∷ xs) ys = x ∷ xs ++ ys

without_infos-append :
    (fs gs : List BcMedia) → without_infos (fs ++ gs) ≡ without_infos fs ++ without_infos gs
without_infos-append [] gs = refl
without_infos-append (info_v1 i ∷ fs) gs = without_infos-append fs gs
without_infos-append (info_v2 i ∷ fs) gs = without_infos-append fs gs
without_infos-append (iframe i ∷ fs) gs = ap (λ l. iframe i ∷ l) (without_infos-append fs gs)
without_infos-append (pframe i ∷ fs) gs = ap (λ l. pframe i ∷ l) (without_infos-append fs gs)
without_infos-append (aac a ∷ fs) gs = ap (λ l. aac a ∷ l) (without_infos-append fs gs)
without_infos-append (adpcm a ∷ fs) gs = ap (λ l. adpcm a ∷ l) (without_infos-append fs gs)

keep-first :
    (b : Bool) (g : BcMedia) (xs ys : List BcMedia)
    → (if b then g ∷ xs ++ ys else []) ≡ keep (if b then g ∷ xs else []) ys
keep-first true g xs ys = refl
keep-first false g xs ys = refl

pub since_keyframe-append_other :
    (fs : List BcMedia) (f : BcMedia)
    → is_keyframe f ≡ false
    → since_keyframe (fs ++ (f ∷ [])) ≡ keep (since_keyframe fs) (without_infos (f ∷ []))
since_keyframe-append_other [] f h = rw h refl
since_keyframe-append_other (g ∷ fs) f h =
    let same = has_keyframe-append_other fs f h in
    elim (Bool-cases (has_keyframe fs)) [
      | inl e ↦ rw (same, e) (since_keyframe-append_other fs f h)
      | inr e ↦
          rw (same, e, without_infos-append fs (f ∷ []))
            (keep-first (is_keyframe g) g (without_infos fs) (without_infos (f ∷ [])))
    ]

pub first_audio-append :
    (fs gs : List BcMedia) → first_audio (fs ++ gs) ≡ or_else (first_audio fs) (first_audio gs)
first_audio-append [] gs = refl
first_audio-append (info_v1 i ∷ fs) gs = first_audio-append fs gs
first_audio-append (info_v2 i ∷ fs) gs = first_audio-append fs gs
first_audio-append (iframe i ∷ fs) gs = first_audio-append fs gs
first_audio-append (pframe i ∷ fs) gs = first_audio-append fs gs
first_audio-append (aac a ∷ fs) gs = refl
first_audio-append (adpcm a ∷ fs) gs = refl

or_else_assoc {ℓ} :
    {A : Type ℓ} (a b c : Option A) → or_else a (or_else b c) ≡ or_else (or_else a b) c
or_else_assoc Option.none b c = refl
or_else_assoc (some x) b c = refl

or_else-none {ℓ} : {A : Type ℓ} (o : Option A) → or_else Option.none o ≡ or_else o Option.none
or_else-none Option.none = refl
or_else-none (some a) = refl

pub newest_type-append :
    (fs : List BcMedia) (f : BcMedia)
    → newest_type (fs ++ (f ∷ [])) ≡ or_else (type_of f) (newest_type fs)
newest_type-append [] f = or_else-none (type_of f)
newest_type-append (g ∷ fs) f =
    rw (newest_type-append fs f) (sym (or_else_assoc (type_of f) (newest_type fs) (type_of g)))
