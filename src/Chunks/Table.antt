-- ===== src/Chunks/Table.antt =====
-- `table` of `ChunkManager::buzhash` in src/storage/ChunkManager.cpp. The array has 256 entries, and
-- the 42 that the initialiser leaves out are 0.
use nebula_fs.Common.{ℕ, List, [], ◌∷◌}

abbrev pub table : List ℕ
table =
    1166796626 ∷ 3238480076 ∷ 3144399853 ∷ 1826365891 ∷ 2625236234 ∷ 1550109487 ∷ 2982212175
    ∷ 3828059125 ∷ 3197629387 ∷ 2428840766 ∷ 596223863 ∷ 3439033153 ∷ 565578907 ∷ 2130765634
    ∷ 1889606470 ∷ 809891206 ∷ 4014952903 ∷ 1690017360 ∷ 2400447674 ∷ 3785648578 ∷ 2366786429
    ∷ 2497982858 ∷ 1720050810 ∷ 1872382902 ∷ 773741783 ∷ 22670908 ∷ 2281475644 ∷ 3815754636
    ∷ 2836375338 ∷ 582211830 ∷ 1655753255 ∷ 2656564432 ∷ 2170787947 ∷ 1276475589 ∷ 4020886655
    ∷ 3111409708 ∷ 830666798 ∷ 2853112291 ∷ 3168833123 ∷ 506420829 ∷ 2058466983 ∷ 4148260285
    ∷ 3577484786 ∷ 3105344642 ∷ 1209488565 ∷ 679145399 ∷ 1349435304 ∷ 1329851395 ∷ 68744692
    ∷ 4056004088 ∷ 380166612 ∷ 2772150094 ∷ 1284421337 ∷ 1996744944 ∷ 1584774431 ∷ 4207577092
    ∷ 1985697593 ∷ 196194476 ∷ 1591144246 ∷ 1980368356 ∷ 1600201422 ∷ 2275681358 ∷ 1355617148
    ∷ 3252719033 ∷ 636975794 ∷ 378886332 ∷ 2661107885 ∷ 2549348142 ∷ 3489325116 ∷ 442578136
    ∷ 801236189 ∷ 1000086849 ∷ 40944812 ∷ 386004701 ∷ 2004503014 ∷ 3357309986 ∷ 1493810920
    ∷ 1451869259 ∷ 241406924 ∷ 1363473260 ∷ 2928203310 ∷ 299943893 ∷ 2764021310 ∷ 3432743643
    ∷ 2857951170 ∷ 2515696514 ∷ 204975316 ∷ 2888792583 ∷ 3704351925 ∷ 3331052461 ∷ 1769358416
    ∷ 2653976970 ∷ 3874800942 ∷ 1824218353 ∷ 2367204837 ∷ 3518262070 ∷ 2906268089 ∷ 3816481527
    ∷ 1465496733 ∷ 2365175035 ∷ 851399188 ∷ 1464159954 ∷ 2962494554 ∷ 3255518405 ∷ 3760902062
    ∷ 1538099722 ∷ 1983046418 ∷ 2302829805 ∷ 1635841388 ∷ 1515525769 ∷ 3518500354 ∷ 1331803521
    ∷ 176001979 ∷ 699321299 ∷ 814333602 ∷ 3108257933 ∷ 1511908069 ∷ 3855346652 ∷ 4276546894
    ∷ 1707902108 ∷ 1928082611 ∷ 1346699719 ∷ 1501799039 ∷ 483176234 ∷ 1597360967 ∷ 2195920837
    ∷ 2531491619 ∷ 3755363874 ∷ 901302452 ∷ 3952132674 ∷ 2806522331 ∷ 813882749 ∷ 2192187057
    ∷ 3742893286 ∷ 4051134186 ∷ 77771959 ∷ 322545705 ∷ 3118563518 ∷ 1576796919 ∷ 4129506521
    ∷ 3840525506 ∷ 571949181 ∷ 2492100851 ∷ 1177949241 ∷ 564392681 ∷ 1400717658 ∷ 1616437807
    ∷ 175422194 ∷ 2094474634 ∷ 951099347 ∷ 3167468789 ∷ 2285238186 ∷ 735559584 ∷ 1515279802
    ∷ 2107995608 ∷ 3421960400 ∷ 1085766269 ∷ 2029936106 ∷ 2100793272 ∷ 2769242511 ∷ 2357424352
    ∷ 2269667221 ∷ 493654695 ∷ 3615140945 ∷ 2897306803 ∷ 3559990547 ∷ 1341320427 ∷ 1615438046
    ∷ 69647592 ∷ 1411253735 ∷ 731731397 ∷ 1193677694 ∷ 1249927903 ∷ 4222371290 ∷ 3216042985
    ∷ 3740725176 ∷ 2709436862 ∷ 3596256601 ∷ 938106264 ∷ 4074362699 ∷ 3151323979 ∷ 3776887500
    ∷ 665098837 ∷ 3880313831 ∷ 1944863412 ∷ 3527070650 ∷ 745179495 ∷ 2902585008 ∷ 152544112
    ∷ 2611407523 ∷ 682176043 ∷ 4130692278 ∷ 1319316374 ∷ 3104575303 ∷ 3739485653 ∷ 3561598926
    ∷ 1015970915 ∷ 1576112716 ∷ 261738294 ∷ 711029673 ∷ 1989316720 ∷ 275084513 ∷ 2649992779
    ∷ 1290581705 ∷ 1402789389 ∷ 926631332 ∷ 1977062053 ∷ 776234751 ∷ 2288757098 ∷ 2971897474
    ∷ 3223802749 ∷ 1664791456 ∷ 1475945952 ∷ 941954292 ∷ []
