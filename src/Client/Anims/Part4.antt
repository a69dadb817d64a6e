-- ===== src/Client/Anims/Part4.antt =====
-- A part of the table of animation names, `s_Strs` of mod/src/algorithms/PlayerAnims.h.
use Prim.Native.String.{String}
use mathlib.Core.List.{List, [], ◌∷◌}

abbrev pub part_4 : List String
part_4 =
    "BlowDown" ∷ "Clash" ∷ "Coverd" ∷ "DamageCap" ∷ "Find" ∷ "HackCharge" ∷ "HackChargeFull"
    ∷ "HackChargeTurn" ∷ "HackRunCoverd" ∷ "PressDown" ∷ "RunCoverd" ∷ "RunNaked" ∷ "Swoon"
    ∷ "SwoonEnd" ∷ "SwoonStart" ∷ "Trampled" ∷ "TrampledEnd" ∷ "TurnCoverd" ∷ "TurnNaked"
    ∷ "BlowEnd" ∷ "BlowSign" ∷ "BlowStart" ∷ "BlowWide" ∷ "Reaction" ∷ "Charge" ∷ "ChargeStart"
    ∷ "Dummy" ∷ "Idle" ∷ "ReactionCap" ∷ "ReactionCapSand" ∷ "ReactionJump" ∷ "ReactionJumpSand"
    ∷ "RunHack" ∷ "RunStartHack" ∷ "WaitHack" ∷ "Attack" ∷ "AttackHit" ∷ "AttackSecond"
    ∷ "AttackSecondSign" ∷ "AttackSign" ∷ "HackAttack" ∷ "HackAttackJump" ∷ "HackAttackMiss"
    ∷ "HackAttackQuick" ∷ "HackJumpEnd" ∷ "HackJumpHigh" ∷ "JumpEnd" ∷ "JumpStart" ∷ "PressDownBlow"
    ∷ "PressDownPress" ∷ "SwoonStartLand" ∷ "HighFall" ∷ "HighJump" ∷ "LandSwim" ∷ "NpcFall"
    ∷ "NpcJump" ∷ "NpcJumpStart" ∷ "RunFast" ∷ "RunSlow" ∷ "RunStay" ∷ "Swim" ∷ "SwimHackStart"
    ∷ "SwimReaction" ∷ "SwimSwoon" ∷ "SwimSwoonEnd" ∷ "SwimSwoonStart" ∷ "SwimSwoonStartLand"
    ∷ "SwoonStartFall" ∷ "UpperPunch" ∷ "Appear" ∷ "Shot" ∷ "SwoonTrampled" ∷ "AttackEnd"
    ∷ "AttackStart" ∷ "MoveEnd" ∷ "MoveStart" ∷ "Recover" ∷ "Trample" ∷ "Expand" ∷ "ExpandAir"
    ∷ "ExpandEnemy" ∷ "ExpandSign" ∷ "ExpandSignEnemy" ∷ "ExpandWait" ∷ "ExpandWaitEnd" ∷ "Hold"
    ∷ "Shrink" ∷ "ShrinkAir" ∷ "ShrinkReactionHead" ∷ "ShrinkReactionHip" ∷ "TurnEnemy" ∷ "TurnHack"
    ∷ "WaitAir" ∷ "FallNormal" ∷ "Glide" ∷ "GlideDrop" ∷ "GlideL" ∷ "GlideLStart" ∷ "GlideR"
    ∷ "GlideRStart" ∷ "GlideRise" ∷ "GlideStart" ∷ "HackEnd" ∷ "HackEndFly" ∷ "JumpEndNormal"
    ∷ "ReactionTrampled" ∷ "Talk" ∷ "WaitNormal" ∷ "WaitSandSink" ∷ "AttackTrample" ∷ "AttackUp"
    ∷ "Break" ∷ "BreakGroundHit" ∷ "BreakReaction" ∷ "BreakWait" ∷ "FallFly" ∷ "Fly" ∷ "FlyChase"
    ∷ "FlyWait" ∷ "RecoverSign" ∷ "Boost" ∷ "BoostStart" ∷ "Explosion" ∷ "FallDown" ∷ "FlyWaitStart"
    ∷ "Standby" ∷ "Turbo" ∷ "AttackTower" ∷ "DashTower" ∷ "DashTowerBottom" ∷ "FallTower"
    ∷ "FindTower" ∷ "HackEndTower" ∷ "JumpTower" ∷ "LandTower" ∷ "Miss" ∷ "MissTower"
    ∷ "PressDownTower" ∷ "Reset" ∷ "RideOn" ∷ "RideOnTower" ∷ "RunTower" ∷ "RunTowerBottom"
    ∷ "SandGeyser" ∷ "SandGeyserTower" ∷ "SandWaitTower" ∷ "SandWalkTower" ∷ "SlideTower"
    ∷ "SwoonLoop" ∷ "WaitTower" ∷ "WalkTower" ∷ "WalkTowerBottom" ∷ "EnemyRun" ∷ "HackRun" ∷ "Choke"
    ∷ "ChokeEnd" ∷ "ChokeStart" ∷ "HackStartChoke" ∷ "Look" ∷ "Swallow" ∷ "SwoonChoke"
    ∷ "SwoonEndChoke" ∷ "SwoonStartChoke" ∷ "Vomit" ∷ "WaitChoke" ∷ "DashR" ∷ "FishingUp"
    ∷ "FishingUpGold" ∷ "JumpGround" ∷ "ReactionWall" ∷ "RollingRail" ∷ "RollingRailReverse"
    ∷ "RollingReverse" ∷ "SwimStart" ∷ "SwimSurfaceEnemy" ∷ "SwimWaitStart" ∷ "TurnPlayer"
    ∷ "WaitGround" ∷ "AdlibWait" ∷ "Generate" ∷ "JumpEndHigh" ∷ "JumpEndLow" ∷ "Stretch"
    ∷ "StretchFall" ∷ "StretchRun" ∷ []
