-- ===== src/Teleop/Skeleton.antt =====
-- The SMPL-X skeleton of include/teleop/smpl_skeleton.hpp. A root's parent is `none`.
use gearsonic_inference.Common.{ℕ, Option, none, some, List, [], ◌∷◌}
use gearsonic_inference.Common.Float.{Float}
use gearsonic_inference.Common.Rotation.{Vec3}

-- kSmplXParents.
abbrev pub smpl_x_parents : List (Option ℕ)
smpl_x_parents =
    none
    ∷ some 0
    ∷ some 0
    ∷ some 0
    ∷ some 1
    ∷ some 2
    ∷ some 3
    ∷ some 4
    ∷ some 5
    ∷ some 6
    ∷ some 7
    ∷ some 8
    ∷ some 9
    ∷ some 9
    ∷ some 9
    ∷ some 12
    ∷ some 13
    ∷ some 14
    ∷ some 16
    ∷ some 17
    ∷ some 18
    ∷ some 19
    ∷ some 15
    ∷ some 15
    ∷ some 15
    ∷ some 20
    ∷ some 25
    ∷ some 26
    ∷ some 20
    ∷ some 28
    ∷ some 29
    ∷ some 20
    ∷ some 31
    ∷ some 32
    ∷ some 20
    ∷ some 34
    ∷ some 35
    ∷ some 20
    ∷ some 37
    ∷ some 38
    ∷ some 21
    ∷ some 40
    ∷ some 41
    ∷ some 21
    ∷ some 43
    ∷ some 44
    ∷ some 21
    ∷ some 46
    ∷ some 47
    ∷ some 21
    ∷ some 49
    ∷ some 50
    ∷ some 21
    ∷ some 52
    ∷ some 53
    ∷ []

-- kSmplOutputJoints.
abbrev pub smpl_output_joints : List ℕ
smpl_output_joints =
    0 ∷ 1 ∷ 2 ∷ 3 ∷ 4 ∷ 5 ∷ 6 ∷ 7 ∷ 8 ∷ 9 ∷ 10 ∷ 11 ∷ 12 ∷ 13 ∷ 14 ∷ 15 ∷ 16 ∷ 17 ∷ 18 ∷ 19 ∷ 20
    ∷ 21 ∷ 39 ∷ 54 ∷ []

-- kSmplStreamParents.
abbrev pub smpl_stream_parents : List (Option ℕ)
smpl_stream_parents =
    none
    ∷ some 0
    ∷ some 0
    ∷ some 0
    ∷ some 1
    ∷ some 2
    ∷ some 3
    ∷ some 4
    ∷ some 5
    ∷ some 6
    ∷ some 7
    ∷ some 8
    ∷ some 9
    ∷ some 9
    ∷ some 9
    ∷ some 12
    ∷ some 13
    ∷ some 14
    ∷ some 16
    ∷ some 17
    ∷ some 18
    ∷ some 19
    ∷ some 20
    ∷ some 22
    ∷ []

module _ (f : Float) where
  open f use {Real, ratio, neg}

  abbrev at : Real → Real → Real → Vec3 Real
  at x y z = record { x = x; y = y; z = z }

  -- kSmplXRestJoints.
  unfoldable pub smpl_x_rest_joints : List (Vec3 Real)
  smpl_x_rest_joints =
      at (ratio 312326057 100000000000) (neg (ratio 351407468 1000000000))
        (ratio 120365508 10000000000)
      ∷ at (ratio 613126531 10000000000) (neg (ratio 444170952 1000000000))
          (neg (ratio 139646353 10000000000))
      ∷ at (neg (ratio 601442158 10000000000)) (neg (ratio 455315471 1000000000))
          (neg (ratio 92138201 10000000000))
      ∷ at (ratio 360562059 1000000000000) (neg (ratio 241516858 1000000000))
          (neg (ratio 155810807 10000000000))
      ∷ at (ratio 11600811 100000000) (neg (ratio 822924376 1000000000))
          (neg (ratio 233606994 10000000000))
      ∷ at (neg (ratio 104354173 1000000000)) (neg (ratio 817695558 1000000000))
          (neg (ratio 260377023 10000000000))
      ∷ at (ratio 980826095 100000000000) (neg (ratio 109663606 1000000000))
          (neg (ratio 215210654 10000000000))
      ∷ at (ratio 725546628 10000000000) (neg (ratio 122598386 100000000))
          (neg (ratio 55236645 1000000000))
      ∷ at (neg (ratio 889373645 10000000000)) (neg (ratio 122842336 100000000))
          (neg (ratio 462299734 10000000000))
      ∷ at (neg (ratio 152215292 100000000000)) (neg (ratio 574284494 10000000000))
          (ratio 692583201 100000000000)
      ∷ at (ratio 119811967 1000000000) (neg (ratio 12839812 10000000))
          (ratio 629796833 10000000000)
      ∷ at (neg (ratio 127749771 1000000000)) (neg (ratio 128675175 100000000))
          (ratio 728190243 10000000000)
      ∷ at (neg (ratio 136866113 10000000000)) (ratio 107738607 1000000000)
          (neg (ratio 246895105 10000000000))
      ∷ at (ratio 448420048 10000000000) (ratio 275152735 10000000000)
          (neg (ratio 294650905 1000000000000))
      ∷ at (neg (ratio 492170788 10000000000)) (ratio 269102231 10000000000)
          (neg (ratio 647406979 100000000000))
      ∷ at (ratio 110968733 10000000000) (ratio 268190414 1000000000)
          (neg (ratio 395224523 100000000000))
      ∷ at (ratio 164081037 1000000000) (ratio 852432996 10000000000)
          (neg (ratio 157555901 10000000000))
      ∷ at (neg (ratio 151794821 1000000000)) (ratio 804346725 10000000000)
          (neg (ratio 191425979 10000000000))
      ∷ at (ratio 41820389 100000000) (ratio 130927814 10000000000)
          (neg (ratio 582144447 10000000000))
      ∷ at (neg (ratio 422944367 1000000000)) (ratio 439421907 10000000000)
          (neg (ratio 456096828 10000000000))
      ∷ at (ratio 670190632 1000000000) (ratio 363140106 10000000000)
          (neg (ratio 60686525 1000000000))
      ∷ at (neg (ratio 672211826 1000000000)) (ratio 394096449 10000000000)
          (neg (ratio 609348677 10000000000))
      ∷ at (neg (ratio 466776267 100000000000)) (ratio 267670691 1000000000)
          (neg (ratio 959140249 100000000000))
      ∷ at (ratio 315992832 10000000000) (ratio 310832113 1000000000) (ratio 621951744 10000000000)
      ∷ at (neg (ratio 315998755 10000000000)) (ratio 310831934 1000000000)
          (ratio 621943437 10000000000)
      ∷ at (ratio 772092462 1000000000) (ratio 2762587 100000000) (neg (ratio 41335389 1000000000))
      ∷ at (ratio 804040849 1000000000) (ratio 298441313 10000000000)
          (neg (ratio 383249447 10000000000))
      ∷ at (ratio 82658577 100000000) (ratio 274940506 10000000000)
          (neg (ratio 382703729 10000000000))
      ∷ at (ratio 779588163 1000000000) (ratio 299863424 10000000000)
          (neg (ratio 646673366 10000000000))
      ∷ at (ratio 81019938 100000000) (ratio 307937432 10000000000)
          (neg (ratio 686899945 10000000000))
      ∷ at (ratio 833714783 1000000000) (ratio 28784994 1000000000) (neg (ratio 7280422 100000000))
      ∷ at (ratio 754237473 1000000000) (ratio 217746813 10000000000)
          (neg (ratio 104436137 1000000000))
      ∷ at (ratio 769708216 1000000000) (ratio 206431001 10000000000)
          (neg (ratio 116435573 1000000000))
      ∷ at (ratio 785241723 1000000000) (ratio 189785324 10000000000)
          (neg (ratio 127652526 1000000000))
      ∷ at (ratio 767634928 1000000000) (ratio 270463768 10000000000)
          (neg (ratio 880311728 10000000000))
      ∷ at (ratio 795681715 1000000000) (ratio 285318363 10000000000)
          (neg (ratio 932971463 10000000000))
      ∷ at (ratio 818503499 1000000000) (ratio 27073551 1000000000)
          (neg (ratio 100391433 1000000000))
      ∷ at (ratio 710826397 1000000000) (ratio 183372851 10000000000)
          (neg (ratio 350756459 10000000000))
      ∷ at (ratio 727842093 1000000000) (ratio 193130989 10000000000)
          (neg (ratio 100975055 10000000000))
      ∷ at (ratio 748365223 1000000000) (ratio 141535439 10000000000) (ratio 5425571 1000000000)
      ∷ at (neg (ratio 772092402 1000000000)) (ratio 276267808 10000000000)
          (neg (ratio 413349308 10000000000))
      ∷ at (neg (ratio 804040551 1000000000)) (ratio 298446734 10000000000)
          (neg (ratio 383240953 10000000000))
      ∷ at (neg (ratio 826585472 1000000000)) (ratio 274952874 10000000000)
          (neg (ratio 382686853 10000000000))
      ∷ at (neg (ratio 779588223 1000000000)) (ratio 299876984 10000000000)
          (neg (ratio 646686926 10000000000))
      ∷ at (neg (ratio 81019938 100000000)) (ratio 307951719 10000000000)
          (neg (ratio 686915368 10000000000))
      ∷ at (neg (ratio 833714902 1000000000)) (ratio 287858527 10000000000)
          (neg (ratio 728055611 10000000000))
      ∷ at (neg (ratio 754238546 1000000000)) (ratio 217752066 10000000000)
          (neg (ratio 104437806 1000000000))
      ∷ at (neg (ratio 769708991 1000000000)) (ratio 206431337 10000000000)
          (neg (ratio 116436549 1000000000))
      ∷ at (neg (ratio 785242379 1000000000)) (ratio 189783983 10000000000)
          (neg (ratio 127652839 1000000000))
      ∷ at (neg (ratio 767635286 1000000000)) (ratio 27047703 1000000000)
          (neg (ratio 880335942 10000000000))
      ∷ at (neg (ratio 795681715 1000000000)) (ratio 285329074 10000000000)
          (neg (ratio 932995006 10000000000))
      ∷ at (neg (ratio 818503737 1000000000)) (ratio 270741172 10000000000)
          (neg (ratio 100392245 1000000000))
      ∷ at (neg (ratio 710824966 1000000000)) (ratio 183352213 10000000000)
          (neg (ratio 350735225 10000000000))
      ∷ at (neg (ratio 727840304 1000000000)) (ratio 193113182 10000000000)
          (neg (ratio 100959428 10000000000))
      ∷ at (neg (ratio 748365939 1000000000)) (ratio 141541166 10000000000)
          (ratio 542560499 100000000000)
      ∷ []
