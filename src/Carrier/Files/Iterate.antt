-- ===== src/Carrier/Files/Iterate.antt =====
-- IOEX_get_files of carrier/IOEX_carrier.c: the application walks over the trackers.
use my_test_module.Prelude.{
  ◌≡◌, refl, Bool, true, false, not, List, [], ◌∷◌, ◌++◌, Option, none, some, if◌then◌else◌, map,
  Bool-cases, inl, inr,
}
use my_test_module.Prelude.Returns.{Code, value, fail}
use my_test_module.Carrier.Files.{FileInfo, Carrier, invalid_args}
use my_test_module.Carrier.Files.Send.{refuse}

-- what IOEX_get_files shows its callback: a file to send, a file to receive, or the end
pub data Visit : Type 0 where
  sending receiving : FileInfo → Visit
  finished : Visit

-- One of the two loops over a list: the visits, and whether the callback wants more.
unfoldable pub visit_each : (Visit → Bool) → (FileInfo → Visit) → List FileInfo → List Visit × Bool
visit_each callback visit [] = ([], true)
visit_each callback visit (info ∷ fts) =
    let (rest, more) = visit_each callback visit fts in
    if not (callback (visit info)) then (visit info ∷ [], false) else (visit info ∷ rest, more)

-- The visits, in order; `none` is a NULL callback.
unfoldable pub get_files : Carrier → Option (Visit → Bool) → List Visit × (Carrier × Code)
get_files w none = ([], refuse w (fail invalid_args))
get_files w (some callback) =
    let (senders, more) = visit_each callback sending w.file_senders in
    let (receivers, more') = visit_each callback receiving w.file_receivers in
    if not more
    then (senders, (w, value 0))
    else if not more'
    then (senders ++ receivers, (w, value 0))
    else (senders ++ (receivers ++ finished ∷ []), (w, value 0))

-- the visits up to the first that the callback does not want to follow, that one included
abbrev pub upto : (Visit → Bool) → List Visit → List Visit
upto callback [] = []
upto callback (v ∷ vs) = v ∷ (if callback v then upto callback vs else [])

-- what one loop visits, in front of what follows it
visit_each_lem :
    (callback : Visit → Bool) (visit : FileInfo → Visit) (fts : List FileInfo) (rest : List Visit)
    → let (visits, more) = visit_each callback visit fts in
      upto callback (map visit fts ++ rest)
      ≡ (if more then visits ++ upto callback rest else visits)
unfolding visit_each
visit_each_lem callback visit [] rest = refl
visit_each_lem callback visit (info ∷ fts) rest = elim (Bool-cases (callback (visit info))) [
  | inr e ↦ rw e refl
  | inl e ↦ elim (Bool-cases (visit_each callback visit fts).1) [
    | inl m ↦ rw (e, m, rw m at (visit_each_lem callback visit fts rest)) refl
    | inr m ↦ rw (e, m, rw m at (visit_each_lem callback visit fts rest)) refl
  ]
]

upto-last : (callback : Visit → Bool) (v : Visit) → upto callback (v ∷ []) ≡ v ∷ []
upto-last callback v = elim (Bool-cases (callback v)) [ inl e ↦ rw e refl | inr e ↦ rw e refl ]

-- get_files shows its callback the files to send, then the files to receive, then the end, up to
-- the first visit after which the callback does not want to go on, and changes nothing.
pub get_files_lem :
    (w : Carrier) (callback : Visit → Bool)
    → get_files w (some callback) ≡ (
      upto callback
          (map sending w.file_senders ++ (map receiving w.file_receivers ++ finished ∷ [])),
      (w, value 0),
    )
unfolding get_files
get_files_lem w callback =
    let to_receive = map receiving w.file_receivers in
    elim (Bool-cases (visit_each callback sending w.file_senders).1) [
      | inr m ↦
          rw
            (
              m,
              rw m at
                  (visit_each_lem callback sending w.file_senders (to_receive ++ finished ∷ [])),
            )
            refl
      | inl m ↦
          rw
            (
              m,
              rw m at
                  (visit_each_lem callback sending w.file_senders (to_receive ++ finished ∷ [])),
            )
            (elim (Bool-cases (visit_each callback receiving w.file_receivers).1) [
              | inl r ↦
                  rw
                    (
                      r,
                      rw (r, upto-last callback finished) at
                          (visit_each_lem callback receiving w.file_receivers (finished ∷ [])),
                    )
                    refl
              | inr r ↦
                  rw
                    (
                      r,
                      rw r at (visit_each_lem callback receiving w.file_receivers (finished ∷ [])),
                    )
                    refl
            ])
    ]
