-- ===== src/Client/Anims/Part1.antt =====
-- A part of the table of animation names, `s_Strs` of mod/src/algorithms/PlayerAnims.h.
use Prim.Native.String.{String}
use mathlib.Core.List.{List, [], ◌∷◌}

abbrev pub part_1 : List String
part_1 =
    "ChairSitDown" ∷ "DamageDown" ∷ "DamageDownSwim" ∷ "DamageDownSwimSurface"
    ∷ "DemoWorldMoveForwardFirst" ∷ "DemoWorldMoveForwardNormal" ∷ "MotorcycleRide"
    ∷ "MotorcycleRideClash" ∷ "MotorcycleRideJump" ∷ "MotorcycleRideLand" ∷ "MotorcycleRideRunStart"
    ∷ "Move" ∷ "MoveMoon" ∷ "ExitPictureDown" ∷ "NoDamageDown" ∷ "NoDamageDownSwim"
    ∷ "NoDamageDownSwimSurface" ∷ "RestartSpinJumpL" ∷ "RestartSpinJumpR" ∷ "JumpCapCatch"
    ∷ "JumpCapCatchAir" ∷ "SandWait" ∷ "SandWalk" ∷ "StartSpinJumpL" ∷ "StartSpinJumpR"
    ∷ "SwimSurfaceNormal" ∷ "SwimSurfaceCarry" ∷ "DemoGetShineGrandStartNormal"
    ∷ "DemoGetShineGrandStartEmpty" ∷ "DemoCapOffWait" ∷ "AreaWait64" ∷ "AreaWaitAloha"
    ∷ "AreaWaitBalance" ∷ "AreaWaitBeach" ∷ "AreaWaitCold" ∷ "AreaWaitDance01" ∷ "AreaWaitDance02"
    ∷ "AreaWaitDance03" ∷ "AreaWaitFight" ∷ "AreaWaitGetwarm" ∷ "AreaWaitGuitar"
    ∷ "AreaWaitHeatGround" ∷ "AreaWaitHot" ∷ "AreaWaitJog" ∷ "AreaWaitLookUp" ∷ "AreaWaitSayCheese"
    ∷ "AreaWaitScared" ∷ "AreaWaitSearch" ∷ "AreaWaitSigh" ∷ "AreaWaitSitDown" ∷ "AreaWaitSleepy"
    ∷ "AreaWaitSmell" ∷ "AreaWaitStink" ∷ "AreaWaitStretch" ∷ "AreaWaitView" ∷ "AreaWaitWaterfall"
    ∷ "AreaWaitWonder" ∷ "ArrowShoot" ∷ "ArrowShootStart" ∷ "BallToss" ∷ "BallTossGround"
    ∷ "BattleWait" ∷ "BedSleep" ∷ "BedSleepStart" ∷ "BedSnooze" ∷ "BedSnoozeStart" ∷ "BikeRide"
    ∷ "Bind" ∷ "Brake" ∷ "BubbleJump" ∷ "BubbleStart" ∷ "BubbleWait" ∷ "CanoeDamage"
    ∷ "CanoeDamageEnd" ∷ "CanoeDamageStart" ∷ "CanoePaddle" ∷ "CanoeTurnL" ∷ "CanoeTurnR"
    ∷ "CanoeWait" ∷ "Carry" ∷ "CarryFront" ∷ "CarryFrontStart" ∷ "CarryFrontThrow" ∷ "CarryUp"
    ∷ "CarryUpStart" ∷ "CarryUpThrow" ∷ "CatapultStart" ∷ "CatchCap" ∷ "CatchCapJump"
    ∷ "CatchCapJumpParts" ∷ "CatchCapJumpPartsReverse" ∷ "CatchCapParts" ∷ "CatchKoopaCap"
    ∷ "ClashWorldStandUp" ∷ "ClimbTreeHandStandWait" ∷ "Damage" ∷ "DamageLand" ∷ "DamageSwim"
    ∷ "DamageSwimSurface" ∷ "DamageSwimSurfaceLand" ∷ "DamageWait" ∷ "Dash" ∷ "DashBrake"
    ∷ "DashFast" ∷ "DashTurn" ∷ "Dead" ∷ "Dead01" ∷ "Dead02" ∷ "Dead03" ∷ "Dead04" ∷ "DeadFall"
    ∷ "DeadFire" ∷ "DeadIce" ∷ "DeadPoison" ∷ "DeadSand" ∷ "DeadWallow" ∷ "DeadWater"
    ∷ "DemoAppearFromHome" ∷ "DemoBattleEndGiantWanderBoss" ∷ "DemoBattleStartBossKnuckle"
    ∷ "DemoBattleStartBreeda" ∷ "DemoBattleStartBreedaFirst" ∷ "DemoBattleStartGolemClimb"
    ∷ "DemoBossRaidAttack" ∷ "DemoCrashHome" ∷ "DemoCrashHomeFall" ∷ "DemoEnding01" ∷ "DemoEnding02"
    ∷ "DemoEnding03" ∷ "DemoEnding04" ∷ "DemoEnterChurch" ∷ "DemoGetShine" ∷ "DemoGetShineCloseUp"
    ∷ "DemoGetShineEnd" ∷ "DemoGetShineGrandCloseUp" ∷ "DemoGetShineGrandCloseUpEnd"
    ∷ "DemoGetShineGrandEnd" ∷ "DemoGetShineGrandStart" ∷ "DemoGetShineLand" ∷ "DemoGetShinePaper"
    ∷ "DemoGetShineRock" ∷ "DemoGetShineScissors" ∷ "DemoGetShineStart" ∷ "DemoHackFirst"
    ∷ "DemoHackKoopa01" ∷ "DemoHackKoopa02" ∷ "DemoJangoCapSearch" ∷ "DemoJangoGetUp"
    ∷ "DemoJangoLookAround" ∷ "DemoJangoStolen" ∷ "DemoJangoStolenLoop" ∷ "DemoMeetCapNpcC01"
    ∷ "DemoMeetCapNpcC01TalkWait" ∷ "DemoMeetCapNpcC02" ∷ "DemoMeetCapNpcC02ATalkWait"
    ∷ "DemoMeetCapNpcC02BTalkWait" ∷ "DemoMeetCapNpcC03" ∷ "DemoMeetCapNpcC04TalkWait"
    ∷ "DemoMeetCapNpcC06TalkWait" ∷ "DemoMeetCapNpcC07TalkWait" ∷ "DemoMeetCapNpcC08TalkWait"
    ∷ "DemoMeetCapNpcC10A" ∷ "DemoMeetCapNpcC10ATalkWait" ∷ "DemoMeetCapNpcC10B"
    ∷ "DemoMeetCapNpcC10BTalkWait" ∷ "DemoOpening01" ∷ "DemoOpeningCap" ∷ "DemoOpeningDown"
    ∷ "DemoPayToHome" ∷ "DemoReset" ∷ "DemoReturnToHome" ∷ "DemoSitDownTalk"
    ∷ "DemoSitDownWaitFirst" ∷ "DemoStartJango" ∷ "DemoStartJango2" ∷ "DemoStartUpHome"
    ∷ "DemoStartUpHomeSky" ∷ "DemoStartWaterfall" ∷ "DemoTakeOffKoopaForMoon"
    ∷ "DemoTalkCapManHeroAppear" ∷ "DemoTalkCapManHeroWalk" ∷ "DemoWarpEnd" ∷ "DemoWarpStart"
    ∷ "DemoWorldLavaScenario1End" ∷ "DemoWorldMoveBackward" ∷ "DemoWorldMoveBackward1" ∷ []
