-- ===== src/Client/Anims/Part5.antt =====
-- A part of the table of animation names, `s_Strs` of mod/src/algorithms/PlayerAnims.h.
use Prim.Native.String.{String}
use mathlib.Core.List.{List, [], ◌∷◌}

abbrev pub part_5 : List String
part_5 =
    "StretchWait" ∷ "UpperObjStart" ∷ "UpperObjWait" ∷ "BlowDownCommon" ∷ "PressDownCommon"
    ∷ "Reload" ∷ "Shoot" ∷ "SwoonReaction" ∷ "AttackMove" ∷ "AttackMoveForest" ∷ "AttackWaitL"
    ∷ "AttackWaitR" ∷ "DashAfterL" ∷ "DashAfterR" ∷ "DashL" ∷ "EnemyAttack" ∷ "EnemyAttackL"
    ∷ "EnemyAttackLEnd" ∷ "EnemyAttackLStart" ∷ "EnemyAttackR" ∷ "EnemyAttackREnd"
    ∷ "EnemyAttackRStart" ∷ "EnemyAttackSign" ∷ "EnemyFall" ∷ "EnemyFallStart" ∷ "EnemyLand"
    ∷ "EnemyRunStart" ∷ "FindMario" ∷ "FootHoldJumpL" ∷ "FootHoldJumpR" ∷ "FootHoldL" ∷ "FootHoldR"
    ∷ "HackStartShort" ∷ "HackStartWithTurn" ∷ "ListPose" ∷ "Lost" ∷ "MoveTouch" ∷ "NoticeSniff"
    ∷ "ReactionSeaOfTrees" ∷ "RunAfterL" ∷ "RunAfterR" ∷ "RunL" ∷ "RunR" ∷ "RunStartL" ∷ "RunStartR"
    ∷ "SleepReactionHipDrop" ∷ "SleepSeaOfTrees" ∷ "SwoonStartDashClash" ∷ "TurnEndL" ∷ "TurnEndR"
    ∷ "TurnL180" ∷ "TurnL90" ∷ "TurnR180" ∷ "TurnR90" ∷ "WaitL" ∷ "WaitR" ∷ "WaitSniff"
    ∷ "WakeUpSwoonStart" ∷ "WalkAfterL" ∷ "WalkAfterR" ∷ "WalkEndL" ∷ "WalkEndR" ∷ "WalkGroundL"
    ∷ "WalkGroundR" ∷ "WalkL" ∷ "WalkR" ∷ "WalkStart" ∷ "WalkStartL" ∷ "WalkStartR" ∷ "AppearBall"
    ∷ "JumpStick" ∷ "SpinL" ∷ "SpinR" ∷ "SpinThrustL" ∷ "SpinThrustR" ∷ "Stick"
    ∷ "StickBendHorizontal" ∷ "StickBendVertical" ∷ "Thrust" ∷ "ThrustCancel" ∷ "ThrustEnd"
    ∷ "ThrustSign" ∷ "ThrustWait" ∷ "TrampleDown" ∷ "AttackPull" ∷ "Back" ∷ "BackEnd" ∷ "BackReturn"
    ∷ "HackDash" ∷ "HackDashPull" ∷ "HackMove" ∷ "HackPull" ∷ "HackPullStart" ∷ "HitAction"
    ∷ "HitEnd" ∷ "HoleIn" ∷ "Return" ∷ "Bubble" ∷ "Bull" ∷ "Byugo" ∷ "BlowStartEnemy"
    ∷ "BlowStartHack" ∷ "IdleHack" ∷ "Stop" ∷ "FireBros" ∷ "Frog" ∷ "HackLand" ∷ "HackOff"
    ∷ "HackOn" ∷ "NpcLand" ∷ "HammerBros" ∷ "Imomu" ∷ "ExpandAirEnemy" ∷ "ExpandAirHack"
    ∷ "ExpandHack" ∷ "ExpandSignHack" ∷ "ShrinkAirHack" ∷ "ShrinkEnemy" ∷ "ShrinkHack"
    ∷ "ShrinkReactionHeadEnemy" ∷ "ShrinkReactionHeadHack" ∷ "ShrinkReactionHipEnemy"
    ∷ "ShrinkReactionHipHack" ∷ "Kakku" ∷ "FallHack" ∷ "KaronWing" ∷ "EnemyFly" ∷ "HackFly"
    ∷ "Killer" ∷ "Default" ∷ "SignExplosion" ∷ "Kuribo" ∷ "KuriboWing" ∷ "PackunFire"
    ∷ "ChokeDefault" ∷ "ChokeCap" ∷ "Eat" ∷ "VomitCap" ∷ "VomitDefault" ∷ "PackunPoison" ∷ "EatDown"
    ∷ "Pukupuku" ∷ "DashRSurface" ∷ "DashRWater" ∷ "RollingRSurface" ∷ "RollingRWater"
    ∷ "RollingLSurface" ∷ "RollingLWater" ∷ "SwimStartSurface" ∷ "SwimStartWater"
    ∷ "SwimWaitStartSurface" ∷ "SwimWaitStartWater" ∷ "SwimWaitSurface" ∷ "SwimWaitWater"
    ∷ "SwimWaitWaterHack" ∷ "SwimWater" ∷ "WaitMove" ∷ "AdlibWaitMove" ∷ "RunMove" ∷ "FallMove"
    ∷ "JumpEndEnemy" ∷ "JumpEndLowHack" ∷ "JumpEndHighHack" ∷ "Tank" ∷ "BlowDownCaptureParade"
    ∷ "PressDownCaptureParade" ∷ "MoveL" ∷ "MoveR" ∷ "MoveAfterL" ∷ "MoveAfterR" ∷ "MoveStartL"
    ∷ "MoveStartR" ∷ "Tsukkun" ∷ "StickBend" ∷ "ThrustEnemy" ∷ "ThrustHack" ∷ "ThrustWaitEnemy"
    ∷ "ThrustWaitHack" ∷ "Wanwan" ∷ "BackChain" ∷ "BackDirect" ∷ "WanwanBig" ∷ []
