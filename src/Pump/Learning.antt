-- ===== src/Pump/Learning.antt =====
-- What `learn` of src/stream/pump.rs has learnt, against the frames that it took.
use neolink.Base.{
  ℕ, suc, ◌≡◌, ◌≢◌, refl, sym, ap, subst, ◌∙◌, inl, inr, false, List, [], ◌∷◌, ◌++◌, take, Option,
  some, if◌then◌else◌, Bool-cases, Option-cases, append_assoc, append-nil,
}
use neolink.Media.Model.{
  VideoType, BcMedia, info_v1, info_v2, iframe, pframe, aac, adpcm, BcMediaIframe, BcMediaPframe,
}
use neolink.Pump.{
  CameraAudio, Learned, Settings, Probe, learned, stopped, waiting, Arrivals, push_after, take_in,
  decide_audio, is_over, finish, conclude, learn_from, learn, new_probe, or_insert,
}
use neolink.Pump.Backlog.{
  is_keyframe, has_keyframe, without_infos, since_keyframe, first_audio, type_of, or_else,
  newest_type, frames_of, keep, since_keyframe-append_key, since_keyframe-append_other,
  first_audio-append, newest_type-append,
}

-- What the loop knows of the frames it has taken.
record Knows (taken : List BcMedia) (p : Probe) : Type 0 where
  kept : p.backlog ≡ since_keyframe taken
  heard : p.audio ≡ first_audio taken
  seen : p.video ≡ newest_type p.backlog

or_insert-or_else {ℓ} : {A : Type ℓ} (o : Option A) (a : A) → or_insert o a ≡ or_else o (some a)
or_insert-or_else Option.none a = refl
or_insert-or_else (some b) a = refl

push_after-keep : (l : List BcMedia) (f : BcMedia) → push_after l f ≡ keep l (f ∷ [])
push_after-keep [] f = refl
push_after-keep (g ∷ l) f = refl

keep-nil : (l : List BcMedia) → l ≡ keep l []
keep-nil [] = refl
keep-nil (g ∷ l) = ap (λ r. g ∷ r) (sym (append-nil l))

newest_type-push_after :
    (l : List BcMedia) (f : BcMedia)
    → type_of f ≡ Option.none
    → newest_type (push_after l f) ≡ newest_type l
newest_type-push_after [] f h = refl
newest_type-push_after (g ∷ l) f h =
    newest_type-append (g ∷ l) f ∙ ap (λ o. or_else o (newest_type (g ∷ l))) h

or_else-unknown {ℓ} : {A : Type ℓ} (o : Option A) → o ≡ or_else o Option.none
or_else-unknown Option.none = refl
or_else-unknown (some a) = refl

info-Knows :
    (taken : List BcMedia) (p : Probe) (f : BcMedia)
    → is_keyframe f ≡ false
    → without_infos (f ∷ []) ≡ []
    → first_audio (f ∷ []) ≡ Option.none
    → Knows taken p
    → Knows (taken ++ (f ∷ [])) p
info-Knows taken p f h w a k = record {
  kept =
      k.kept
      ∙ keep-nil (since_keyframe taken)
      ∙ sym (since_keyframe-append_other taken f h ∙ ap (keep (since_keyframe taken)) w);
  heard =
      k.heard
      ∙ or_else-unknown (first_audio taken)
      ∙ sym (first_audio-append taken (f ∷ []) ∙ ap (or_else (first_audio taken)) a);
  seen = k.seen;
}

or_else-known {ℓ} : {A : Type ℓ} (o : Option A) (a : A) → or_else o (some a) ≢ Option.none
or_else-known Option.none a = λ e. cc
or_else-known (some b) a = λ e. cc

unknown_first :
    (f : BcMedia) (fs : List BcMedia)
    → newest_type (if is_keyframe f then f ∷ fs else []) ≡ Option.none
    → (if is_keyframe f then f ∷ fs else []) ≡ []
unknown_first (info_v1 i) fs e = refl
unknown_first (info_v2 i) fs e = refl
unknown_first (iframe i) fs e = elim (or_else-known (newest_type fs) i.video_type e) [ ]
unknown_first (pframe i) fs e = refl
unknown_first (aac a) fs e = refl
unknown_first (adpcm a) fs e = refl

-- Where no type is known, nothing has been kept.
since_keyframe-unknown :
    (fs : List BcMedia) → newest_type (since_keyframe fs) ≡ Option.none → since_keyframe fs ≡ []
since_keyframe-unknown [] e = refl
since_keyframe-unknown (f ∷ fs) e = elim (Bool-cases (has_keyframe fs)) [
  | inl b ↦ rw b (since_keyframe-unknown fs (rw b at e))
  | inr b ↦ rw b (unknown_first f (without_infos fs) (rw b at e))
]

keep-known : (l ys : List BcMedia) (v : VideoType) → newest_type l ≡ some v → l ++ ys ≡ keep l ys
keep-known [] ys v e = cc
keep-known (g ∷ l) ys v e = refl

iframe-Knows :
    (taken : List BcMedia) (p : Probe) (now : ℕ) (i : BcMediaIframe)
    → Knows taken p
    → Knows (taken ++ (iframe i ∷ [])) (take_in now (iframe i) p)
unfolding take_in
iframe-Knows taken p now i k = record {
  kept = sym (since_keyframe-append_key taken i);
  heard =
      k.heard
      ∙ or_else-unknown (first_audio taken)
      ∙ sym (first_audio-append taken (iframe i ∷ []));
  seen = refl;
}

pframe-Knows :
    (taken : List BcMedia) (p : Probe) (now : ℕ) (i : BcMediaPframe)
    → Knows taken p
    → Knows (taken ++ (pframe i ∷ [])) (take_in now (pframe i) p)
unfolding take_in
pframe-Knows taken p now i k =
    let since = since_keyframe-append_other taken (pframe i) refl in
    let heard =
      k.heard
      ∙ or_else-unknown (first_audio taken)
      ∙ sym (first_audio-append taken (pframe i ∷ [])) in
    elim (Option-cases p.video) [
      | inl e ↦
          let empty = since_keyframe-unknown taken (ap newest_type (sym k.kept) ∙ sym k.seen ∙ e) in
          rw e (record {
            kept = k.kept ∙ empty ∙ sym (since ∙ ap (λ l. keep l (pframe i ∷ [])) empty);
            heard = heard;
            seen = sym e ∙ k.seen;
          })
      | inr (v, e) ↦ rw e (record {
        kept =
            keep-known p.backlog (pframe i ∷ []) v (sym k.seen ∙ e)
            ∙ ap (λ l. keep l (pframe i ∷ [])) k.kept
            ∙ sym since;
        heard = heard;
        seen = sym (newest_type-append p.backlog (pframe i));
      })
    ]

audio-Knows :
    (taken : List BcMedia) (p : Probe) (f : BcMedia) (found : CameraAudio)
    → is_keyframe f ≡ false
    → without_infos (f ∷ []) ≡ f ∷ []
    → first_audio (f ∷ []) ≡ some found
    → type_of f ≡ Option.none
    → Knows taken p
    → Knows
        (taken ++ (f ∷ []))
        (record p { audio = or_insert p.audio found; backlog = push_after p.backlog f })
audio-Knows taken p f found h w a t k = record {
  kept =
      push_after-keep p.backlog f
      ∙ ap (λ l. keep l (f ∷ [])) k.kept
      ∙ sym (since_keyframe-append_other taken f h ∙ ap (keep (since_keyframe taken)) w);
  heard =
      or_insert-or_else p.audio found
      ∙ ap (λ o. or_else o (some found)) k.heard
      ∙ sym (first_audio-append taken (f ∷ []) ∙ ap (or_else (first_audio taken)) a);
  seen = k.seen ∙ sym (newest_type-push_after p.backlog f t);
}

take_in-Knows :
    (taken : List BcMedia) (p : Probe) (now : ℕ) (f : BcMedia)
    → Knows taken p
    → Knows (taken ++ (f ∷ [])) (take_in now f p)
unfolding take_in
take_in-Knows taken p now (info_v1 i) k = info-Knows taken p (info_v1 i) refl refl refl k
take_in-Knows taken p now (info_v2 i) k = info-Knows taken p (info_v2 i) refl refl refl k
take_in-Knows taken p now (iframe i) k = iframe-Knows taken p now i k
take_in-Knows taken p now (pframe i) k = pframe-Knows taken p now i k
take_in-Knows taken p now (aac a) k =
    audio-Knows taken p (aac a) CameraAudio.aac refl refl refl refl k
take_in-Knows taken p now (adpcm a) k =
    audio-Knows taken p (adpcm a) CameraAudio.adpcm refl refl refl refl k

-- The newest keyframe of some frames and what came after it, the type of the newest frame of
-- video, and the plan for the first audio among them.
pub record IsLearnt (s : Settings) (taken : List BcMedia) (l : Learned) : Type 0 where
  pub backlog : l.backlog ≡ since_keyframe taken
  pub video : newest_type l.backlog ≡ some l.video
  pub plan : l.plan ≡ decide_audio s.audio (first_audio taken)

conclude-IsLearnt :
    (s : Settings) (taken : List BcMedia) (p : Probe) (o : Option VideoType) (l : Learned)
    → Knows taken p
    → p.video ≡ o
    → conclude s p.audio p.backlog o ≡ learned l
    → IsLearnt s taken l
conclude-IsLearnt s taken p Option.none l k v e = cc
conclude-IsLearnt s taken p (some video) l k v e =
    let same : record { video = video; plan = decide_audio s.audio p.audio; backlog = p.backlog }
        ≡ l =
      cc in
    subst (IsLearnt s taken) same (record {
      backlog = k.kept;
      video = sym k.seen ∙ v;
      plan = ap (decide_audio s.audio) k.heard;
    })

learn_from-IsLearnt :
    (s : Settings) (now : ℕ) (p : Probe) (arrivals : Arrivals) (l : Learned) (taken : List BcMedia)
    → Knows taken p
    → learn_from s now p arrivals ≡ learned l
    → (n : ℕ) × IsLearnt s (taken ++ frames_of (take n arrivals)) l
unfolding learn_from finish
learn_from-IsLearnt s now p [] l taken k e = elim (Bool-cases (is_over s now p Option.none)) [
  | inl b ↦ (0, rw (append-nil taken) (conclude-IsLearnt s taken p p.video l k refl (rw b at e)))
  | inr b ↦ let bad : waiting ≡ learned l = rw b at e in cc
]
learn_from-IsLearnt s now p ((t, Option.none) ∷ rest) l taken k e =
    elim (Bool-cases (is_over s now p (some t))) [
      | inl b ↦
          (0, rw (append-nil taken) (conclude-IsLearnt s taken p p.video l k refl (rw b at e)))
      | inr b ↦ let bad : stopped ≡ learned l = rw b at e in cc
    ]
learn_from-IsLearnt s now p ((t, some f) ∷ rest) l taken k e =
    elim (Bool-cases (is_over s now p (some t))) [
      | inl b ↦
          (0, rw (append-nil taken) (conclude-IsLearnt s taken p p.video l k refl (rw b at e)))
      | inr b ↦
          let (n, h) =
            learn_from-IsLearnt s t (take_in t f p) rest l (taken ++ (f ∷ []))
              (take_in-Knows taken p t f k) (rw b at e) in
          (suc n, rw⁻¹ (append_assoc taken (f ∷ []) (frames_of (take n rest))) h)
    ]

-- Where `learn` gives a result, it has taken some of the first frames that came, and the backlog
-- is the newest keyframe among them with what came after it, stream information left out; the type
-- of the video is that of the newest frame of video in it, and the plan is the one for the first
-- audio that was taken.
pub learn-IsLearnt :
    (s : Settings) (now : ℕ) (arrivals : Arrivals) (l : Learned)
    → learn s now arrivals ≡ learned l
    → (n : ℕ) × IsLearnt s (frames_of (take n arrivals)) l
unfolding learn
learn-IsLearnt s now arrivals l e =
    learn_from-IsLearnt s now new_probe arrivals l []
      (record { kept = refl; heard = refl; seen = refl }) e
