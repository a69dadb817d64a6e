-- ===== src/Client/Anims/Part2.antt =====
-- A part of the table of animation names, `s_Strs` of mod/src/algorithms/PlayerAnims.h.
use Prim.Native.String.{String}
use mathlib.Core.List.{List, [], ◌∷◌}

abbrev pub part_2 : List String
part_2 =
    "DemoWorldMoveBackward2" ∷ "DemoWorldMoveBackward3" ∷ "DemoWorldMoveForward"
    ∷ "DemoWorldMoveForwardArrive" ∷ "DemoWorldMoveForwardNormal1" ∷ "DemoWorldMoveForwardNormal2"
    ∷ "DemoWorldMoveForwardNormal3" ∷ "DemoWorldMoveMoonBackward" ∷ "DemoWorldMoveMoonForward"
    ∷ "DemoWorldMoveMoonForwardFirst" ∷ "DemoWorldTakeoff" ∷ "DemoWorldTakeoffEast"
    ∷ "DemoWorldTakeoffForMoon" ∷ "DemoWorldTakeoffForMoonFirst"
    ∷ "DemoWorldTakeoffForMoonFirstTuxedo" ∷ "DemoWorldTakeoffWest" ∷ "DemoWorldWarpHole01"
    ∷ "DemoWorldWarpHole02" ∷ "DemoWorldWarpHole03" ∷ "Dive" ∷ "DiveInWater" ∷ "DokanIn"
    ∷ "DokanInHome" ∷ "DokanInUpsideDown" ∷ "DokanJump" ∷ "DokanOut" ∷ "DokanOutUpsideDown"
    ∷ "DokanReady" ∷ "DokanReadyHome" ∷ "DokanSideIn" ∷ "DokanSideOut" ∷ "DoorIn" ∷ "DoorOut"
    ∷ "DoorStart" ∷ "Fall" ∷ "Fire" ∷ "FireRun" ∷ "FireRunStart" ∷ "GetShine" ∷ "GetShineCity"
    ∷ "GetShineEmpty" ∷ "GetShineGrand" ∷ "GetShineSub" ∷ "GrabCeilJump" ∷ "GrabCeilStart"
    ∷ "GrabCeilSwing" ∷ "GrabCeilWait" ∷ "Hack" ∷ "HeadSliding" ∷ "HeadSlidingStart" ∷ "HipDrop"
    ∷ "HipDropLand" ∷ "HipDropReaction" ∷ "HipDropStart" ∷ "HomeCapManHeroAppear" ∷ "Jump" ∷ "Jump2"
    ∷ "Jump3" ∷ "JumpBack" ∷ "JumpBroad" ∷ "JumpBroad2" ∷ "JumpBroad3" ∷ "JumpBroad4" ∷ "JumpBroad5"
    ∷ "JumpBroad6" ∷ "JumpBroad7" ∷ "JumpBroad8" ∷ "JumpBroad9" ∷ "JumpCapCatchCommon"
    ∷ "JumpCapLeapFrog" ∷ "JumpDashFast" ∷ "JumpEndHack" ∷ "JumpFlap" ∷ "JumpHipDrop" ∷ "JumpInterp"
    ∷ "JumpNpcTrample" ∷ "JumpObjectReaction" ∷ "JumpReverse" ∷ "JumpReverseInterp" ∷ "JumpTurn"
    ∷ "Kick" ∷ "KoopaCapPunchFinishL" ∷ "KoopaCapPunchFinishLStart" ∷ "KoopaCapPunchFinishR"
    ∷ "KoopaCapPunchFinishRStart" ∷ "KoopaCapPunchL" ∷ "KoopaCapPunchLStart" ∷ "KoopaCapPunchR"
    ∷ "KoopaCapPunchRStart" ∷ "KoopaDemoBattleStartChurchFirstLv2" ∷ "KoopaDemoBattleStartChurchLv2"
    ∷ "KoopaDemoBattleStartChurchSecondLv2" ∷ "KoopaDemoBattleStartFirstLv1"
    ∷ "KoopaDemoBattleStartFirstLv2" ∷ "KoopaDemoBattleStartSecondLv1"
    ∷ "KoopaDemoBattleStartSecondLv2" ∷ "KoopaDemoBattleStartTalkBlendLv1"
    ∷ "KoopaDemoClashBasement" ∷ "Land" ∷ "LandDownFall" ∷ "LandJump3" ∷ "LandRolling"
    ∷ "LandStiffen" ∷ "LandTurn" ∷ "MainScenarioCameraWait" ∷ "MofumofuDemoOpening1"
    ∷ "MofumofuDemoOpening2" ∷ "MotorcycleRideC" ∷ "MotorcycleRideClashC" ∷ "MotorcycleRideClashL"
    ∷ "MotorcycleRideClashR" ∷ "MotorcycleRideJumpC" ∷ "MotorcycleRideJumpL" ∷ "MotorcycleRideJumpR"
    ∷ "MotorcycleRideL" ∷ "MotorcycleRideLandC" ∷ "MotorcycleRideLandL" ∷ "MotorcycleRideLandR"
    ∷ "MotorcycleRideOn" ∷ "MotorcycleRideR" ∷ "MotorcycleRideRunStartC" ∷ "MotorcycleRideRunStartL"
    ∷ "MotorcycleRideRunStartR" ∷ "MotorcycleRideStart" ∷ "MotorcycleRideStartL"
    ∷ "MotorcycleRideStartR" ∷ "MotorcycleWait" ∷ "OpeningStandUp" ∷ "PauseMenu2Player"
    ∷ "PauseMenuContinue" ∷ "PauseMenuContinueEnd" ∷ "PauseMenuData" ∷ "PauseMenuHelp"
    ∷ "PauseMenuNewGame" ∷ "PauseMenuSave" ∷ "PauseMenuStart" ∷ "PauseMenuWait" ∷ "PoleCatch"
    ∷ "PoleClimb" ∷ "PoleFall" ∷ "PoleHandStandEnd" ∷ "PoleHandStandJump" ∷ "PoleHandStandStart"
    ∷ "PoleHandStandTurn" ∷ "PoleHandStandWait" ∷ "PoleTurn" ∷ "PoleWait" ∷ "Punch" ∷ "Push"
    ∷ "RabbitGet" ∷ "RaceManHack" ∷ "RaceManHackEnd" ∷ "RaceManHackStart" ∷ "RaceManJumpEnd"
    ∷ "RaceManJumpStart" ∷ "RaceManResultLose" ∷ "RaceManResultWin" ∷ "RaceResultLose"
    ∷ "RaceResultWin" ∷ "ReactionCapOn" ∷ "Rolling" ∷ "RollingEnd" ∷ "RollingEndBackUp"
    ∷ "RollingJump" ∷ "RollingLand" ∷ "RollingStandUp" ∷ "RollingStart" ∷ "RoswellPut"
    ∷ "RoswellRun" ∷ "RoswellThrow" ∷ "RoswellWait" ∷ "Run" ∷ "RunMoon" ∷ "RunStart"
    ∷ "SandWaitNormal" ∷ "SandWaitStrong" ∷ "SandWalkNormal" ∷ "SandWalkStrong" ∷ "SitDown"
    ∷ "SitDownEnd" ∷ "SitDownLand" ∷ "SitDownSleep" ∷ "SitDownSleepEnd" ∷ "SitDownSleepStart"
    ∷ "SitDownStart" ∷ "Sleep" ∷ "SleepStart" ∷ "Slide" ∷ []
